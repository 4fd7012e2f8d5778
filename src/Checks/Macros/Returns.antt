-- ===== src/Checks/Macros/Returns.antt =====
-- CheckCheck returns: the expression in the parentheses gets shorter in every round.
use falcon_link.Prelude.{
  ℕ, zero, suc, ◌+◌, ◌≤◌, ◌<◌, ◌≡◌, refl, ap, inl, inr, Bool, true, false, Option, none, some, List,
  [], ◌∷◌, ◌++◌, arith, codes, text_eq, find, Text, Bool-cases, Option-cases, none-ne-some, length,
  get_elem?, drop, length-drop, get_elem?-some,
}
use falcon_link.Regex.{start, star, dot, space, match_start, Found}
use falcon_link.Regex.Least.{least, EndsIn, ends_here, ends_behind, ends_before, last_group}
use falcon_link.Nesting.Blocks.{starts}
use falcon_link.Checks.{when}
use falcon_link.RawStrings.{group_text}
use falcon_link.Report.{Report}
use falcon_link.CleansedLines.{CleansedLines}
use falcon_link.CleansedLines.Copies.{SameLengths}
use falcon_link.Expression.{find_end_of_expression_in_line}
use falcon_link.Expression.Bounds.{close_expression-PointsInto, Scan-cases}
use falcon_link.Checks.Macros.{
  macro_call, find_check_macro, check_macros, semicolon_behind, checked_expression,
  replacement_reports, macro_reports, found_macro_reports, check_check,
}
use falcon_link.Checks.Operands.{
  operand_operator, operand_text, operand_letter, Parts, unfit, parts, parenthesised, plain_operand,
  is_logical, is_other_operator, parse_expression,
}

operand_operator-EndsIn : EndsIn 2 1 operand_operator
unfolding operand_operator least
operand_operator-EndsIn =
    ends_behind start 1 (ends_behind (star space) 1 (ends_behind _ 0 (ends_here 2 (star dot))))

operand_text-EndsIn : EndsIn 2 1 operand_text
unfolding operand_text least
operand_text-EndsIn = ends_behind start 1 (ends_behind _ 0 (ends_here 2 (star dot)))

operand_letter-EndsIn : EndsIn 2 1 operand_letter
unfolding operand_letter least
operand_letter-EndsIn = ends_behind start 1 (ends_behind _ 0 (ends_here 2 (star dot)))

macro_call-EndsIn : (macro : Text) → EndsIn 1 1 (macro_call macro)
unfolding macro_call least
macro_call-EndsIn macro = ends_behind start 1 (ends_before 1 _ _ refl)

rest-eq : {a a' r r' : Text} → ◌≡◌ {A = Option (Text × Text)} (some (a, r)) (some (a', r')) → r ≡ r'
rest-eq h = cc

-- An operand that was read leaves less of the expression.
plain_operand-shorter :
    (e operand rest : Text) → plain_operand e ≡ some (operand, rest) → length rest < length e
unfolding plain_operand
plain_operand-shorter e operand rest h = elim (Option-cases (match_start operand_text e)) [
  | inr (m, q) ↦
      let k = last_group operand_text e m operand_text-EndsIn q in
      let t = rest-eq (rw (q, plain_operand) at h) in omega (arith, ap (length {0}) t)
  | inl n ↦ elim (Option-cases (match_start operand_letter e)) [
    | inr (m, q) ↦
        let k = last_group operand_letter e m operand_letter-EndsIn q in
        let t = rest-eq (rw (n, q, plain_operand) at h) in omega (arith, ap (length {0}) t)
    | inl q ↦ absurd (none-ne-some (rw (n, q, plain_operand) at h))
  ]
]

parenthesised-no_longer :
    (e operand rest : Text) → parenthesised e ≡ some (operand, rest) → length rest ≤ length e
unfolding parenthesised
parenthesised-no_longer e operand rest h =
    elim (Scan-cases (find_end_of_expression_in_line e 0 (b'(' ∷ []))) [
      | inl (p, q) ↦
          let t = rest-eq (rw (q, parenthesised) at h) in
          omega (arith, length-drop {0} p e, ap (length {0}) t)
      | inr (inl q) ↦ absurd (none-ne-some (rw (q, parenthesised) at h))
      | inr (inr (st, q)) ↦ absurd (none-ne-some (rw (q, parenthesised) at h))
    ]

-- One round that begins with an operator.
behind_operator :
    {fuel : ℕ} (lhs e : Text) (m : Found)
    → text_eq e [] ≡ false
    → match_start operand_operator e ≡ some m
    → length (group_text m 2) < fuel
    → ((lhs' e' : Text)
        → length e' ≤ length (group_text m 2)
        → (p : Parts) × (parse_expression fuel lhs' e' ≡ some p))
    → (p : Parts) × (parse_expression (suc fuel) lhs e ≡ some p)
unfolding parse_expression
behind_operator {fuel} lhs e m f q lt go =
    elim (Bool-cases (text_eq (group_text m 1) (codes "("))) [
      | inl t ↦ elim (Option-cases (parenthesised (group_text m 2))) [
        | inl n ↦ (unfit, rw (f, q, t, n, parse_expression))
        | inr ((operand, rest), n) ↦
            let (p, r) =
              go (lhs ++ operand) rest (parenthesised-no_longer (group_text m 2) operand rest n) in
            (p, rw (f, q, t, n, parse_expression) r)
      ]
      | inr g ↦ elim (Bool-cases (is_logical (group_text m 1))) [
        | inl t ↦ (unfit, rw (f, q, g, t, parse_expression))
        | inr i ↦ elim (Bool-cases (is_other_operator (group_text m 1))) [
          | inl t ↦
              let (p, r) = go (lhs ++ group_text m 1) (group_text m 2) (omega arith) in
              (p, rw (f, q, g, i, t, parse_expression) r)
          | inr o ↦ (
            parts lhs (some (group_text m 1)) (group_text m 2),
            rw (f, q, g, i, o, parse_expression),
          )
        ]
      ]
    ]

-- Fuel for more than the letters of the expression is enough.
parse_expression-Returns :
    (fuel : ℕ) (lhs e : Text)
    → length e < fuel
    → (p : Parts) × (parse_expression fuel lhs e ≡ some p)
unfolding parse_expression
parse_expression-Returns zero lhs e lt = absurd (omega arith)
parse_expression-Returns (suc fuel) lhs e lt = elim (Bool-cases (text_eq e [])) [
  | inl t ↦ (parts lhs none [], rw (t, parse_expression))
  | inr f ↦ elim (Option-cases (match_start operand_operator e)) [
    | inl n ↦ elim (Option-cases (plain_operand e)) [
      | inl q ↦ (parts lhs none [], rw (f, n, q, parse_expression))
      | inr ((operand, rest), q) ↦
          let k = plain_operand-shorter e operand rest q in
          let (p, r) = parse_expression-Returns fuel (lhs ++ operand) rest (omega arith) in
          (p, rw (f, n, q, parse_expression) r)
    ]
    | inr (m, q) ↦
        let k = last_group operand_operator e m operand_operator-EndsIn q in
        behind_operator lhs e m f q (omega arith)
          (λ lhs' e' le. parse_expression-Returns fuel lhs' e' (omega arith))
  ]
]

some_pair-eq :
    {m m' : Text} {p p' : ℕ} → ◌≡◌ {A = Option (Text × ℕ)} (some (m, p)) (some (m', p')) → p ≡ p'
some_pair-eq h = cc

-- The parenthesis of the macro is on the line.
find_check_macro-on_line :
    (macros : List Text) (line macro : Text) (pos : ℕ)
    → find_check_macro macros line ≡ some (macro, pos)
    → pos < length line
unfolding find_check_macro
find_check_macro-on_line [] line macro pos h = cc
find_check_macro-on_line (m ∷ macros) line macro pos h = elim (Option-cases (find line m)) [
  | inl n ↦ find_check_macro-on_line macros line macro pos (rw (n, find_check_macro) at h)
  | inr (i, e) ↦ elim (Option-cases (match_start (macro_call m) line)) [
    | inl n ↦ find_check_macro-on_line macros line macro pos (rw (e, n, find_check_macro) at h)
    | inr (f, q) ↦
        let k = last_group (macro_call m) line f (macro_call-EndsIn m) q in
        let t = some_pair-eq (rw (e, q, find_check_macro) at h) in omega (arith, t)
  ]
]

-- One report at most, on that line.
abbrev pub AtMostOneOn : ℕ → List Report → Type 0
AtMostOneOn linenum [] = Unit {0}
AtMostOneOn linenum (r ∷ []) = r.linenum ≡ linenum
AtMostOneOn linenum (r ∷ r' ∷ reports) = ⊥

when-AtMostOneOn :
    (b : Bool) (linenum : ℕ) (r : Report) → r.linenum ≡ linenum → AtMostOneOn linenum (when b r)
when-AtMostOneOn true linenum r e = e
when-AtMostOneOn false linenum r e = tt

replacement_reports-AtMostOneOn :
    (filename macro : Text) (linenum : ℕ) (p : Parts)
    → AtMostOneOn linenum (replacement_reports filename linenum macro p)
unfolding replacement_reports
replacement_reports-AtMostOneOn filename macro linenum unfit = tt
replacement_reports-AtMostOneOn filename macro linenum (parts lhs none rhs) = tt
replacement_reports-AtMostOneOn filename macro linenum (parts lhs (some op) rhs) =
    when-AtMostOneOn _ linenum _ refl

macro_reports-Returns :
    (filename : Text) (c : CleansedLines) (linenum pos : ℕ) (line macro : Text)
    (r : Text × ℕ × Option ℕ)
    → (reports : List Report) × (macro_reports filename c linenum line macro pos r ≡ some reports)
      × AtMostOneOn linenum reports
unfolding macro_reports
macro_reports-Returns filename c linenum pos line macro (last, n, none) = ([], refl, tt)
macro_reports-Returns filename c linenum pos line macro (last, n, some p) =
    elim (Bool-cases (starts semicolon_behind (drop p last))) [
      | inr f ↦ ([], rw (f, macro_reports), tt)
      | inl t ↦
          let e = checked_expression c line linenum pos last n p in
          let (ps, q) = parse_expression-Returns (length e + 1) [] e (omega arith) in
          (
            replacement_reports filename linenum macro ps,
            rw (t, q, macro_reports),
            replacement_reports-AtMostOneOn filename macro linenum ps,
          )
    ]

found_macro_reports-Returns :
    (filename : Text) (c : CleansedLines) (linenum : ℕ) (line : Text) (call : Option (Text × ℕ))
    → SameLengths c
    → get_elem? c.elided linenum ≡ some line
    → ((macro : Text) (pos : ℕ) → call ≡ some (macro, pos) → pos < length line)
    → (reports : List Report) × (found_macro_reports filename c linenum line call ≡ some reports)
      × AtMostOneOn linenum reports
unfolding found_macro_reports
found_macro_reports-Returns filename c linenum line none same here inside = ([], refl, tt)
found_macro_reports-Returns filename c linenum line (some (macro, pos)) same here inside =
    let (r, e, _) =
      close_expression-PointsInto c linenum pos line same here (inside macro pos refl) in
    let (reports, k, one) = macro_reports-Returns filename c linenum pos line macro r in
    (reports, rw (e, found_macro_reports) k, one)

-- On copies of one length CheckCheck returns for every line of the file, and makes one report at
-- most, on that line.
pub check_check-Returns :
    (filename : Text) (c : CleansedLines) (linenum : ℕ)
    → SameLengths c
    → linenum < c.num_lines
    → (reports : List Report) × (check_check filename c linenum ≡ some reports)
      × AtMostOneOn linenum reports
unfolding check_check
check_check-Returns filename c linenum same lt =
    let (line, here) = get_elem?-some c.elided linenum (omega (arith, same.elided)) in
    let (reports, k, one) =
      found_macro_reports-Returns filename c linenum line (find_check_macro check_macros line) same
        here (find_check_macro-on_line check_macros line) in
    (reports, rw (here, check_check) k, one)
