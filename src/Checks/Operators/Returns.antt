-- ===== src/Checks/Operators/Returns.antt =====
-- CheckOperatorSpacing returns.
use falcon_link.Prelude.{
  ℕ, ◌≤◌, ◌<◌, ◌≡◌, refl, inl, inr, Bool, true, false, not, ◌&&◌, some, List, [], ◌∷◌, ◌++◌, arith,
  codes, text_eq, Text, Bool-cases, Option-cases, length, get_elem?, All, All-append,
  get_elem?-some,
}
use falcon_link.Regex.{start, match_start, search_in}
use falcon_link.Regex.Least.{least, EndsIn, ends_before, ends_behind, last_group}
use falcon_link.RawStrings.{group_text}
use falcon_link.Report.{Report, report}
use falcon_link.Nolint.{matches}
use falcon_link.Nesting.Blocks.{starts}
use falcon_link.CleansedLines.{CleansedLines}
use falcon_link.CleansedLines.Copies.{SameLengths}
use falcon_link.Expression.{reverse_close_at, reverse_close_expression}
use falcon_link.Expression.Bounds.{close_expression-PointsInto}
use falcon_link.Checks.{when}
use falcon_link.Checks.Operators.{
  tight_comparison, include_directive, tight_less, tight_greater, tight_shift_left,
  tight_shift_right, is_number, spaced_unary, assign_reports, missing, less_reports,
  greater_reports, comparison_reports, shift_reports, unary_reports, check_operator_spacing,
}
use falcon_link.Checks.Operators.Hidden.{hide_operators-Returns}

-- Every report is on this line.
abbrev pub On : ℕ → List Report → Type 0
On linenum reports = All (λ (r : Report). r.linenum ≡ linenum) reports

when-On : (b : Bool) (linenum : ℕ) (r : Report) → r.linenum ≡ linenum → On linenum (when b r)
when-On true linenum r e = (e, tt)
when-On false linenum r e = tt

append-On :
    (linenum : ℕ) (first more : List Report)
    → On linenum first
    → On linenum more
    → On linenum (first ++ more)
append-On linenum = All-append (λ (r : Report). r.linenum ≡ linenum)

tight_less-EndsIn : EndsIn 1 2 tight_less
unfolding tight_less least
tight_less-EndsIn = ends_behind start 2 (ends_before 1 _ _ refl)

tight_greater-EndsIn : EndsIn 1 2 tight_greater
unfolding tight_greater least
tight_greater-EndsIn = ends_behind start 2 (ends_before 1 _ _ refl)

module _ (filename : Text) (c : CleansedLines) (linenum : ℕ) where
  assign_reports-On : (line : Text) → On linenum (assign_reports filename linenum line)
  unfolding assign_reports
  assign_reports-On line = when-On _ linenum _ refl

  unary_reports-On : (line : Text) → On linenum (unary_reports filename linenum line)
  unfolding unary_reports
  unary_reports-On line = elim (Option-cases (search_in spaced_unary line)) [
    | inl n ↦ rw (n, unary_reports) tt
    | inr (m, q) ↦ rw (q, unary_reports) (refl, tt)
  ]

  shift_reports-On : (line : Text) → On linenum (shift_reports filename linenum line)
  unfolding shift_reports
  shift_reports-On line = elim (Option-cases (search_in tight_shift_left line)) [
    | inl n ↦ rw (n, shift_reports) (when-On _ linenum _ refl)
    | inr (m, q) ↦
        let ends_right : Bool = matches tight_shift_right line in
        let is_tight : Bool =
          not (is_number (group_text m 1) && is_number (group_text m 2))
          && not (
              text_eq (group_text m 1) (codes "operator")
              && text_eq (group_text m 2) (codes ";")) in
        let left =
          report filename linenum "whitespace/operators" 3 (codes "Missing spaces around <<") in
        let right =
          report filename linenum "whitespace/operators" 3 (codes "Missing spaces around >>") in
        rw (q, shift_reports)
          (append-On linenum (when is_tight left) (when ends_right right)
            (when-On is_tight linenum left refl) (when-On ends_right linenum right refl))
  ]

  module _ (same : SameLengths c) (elided line : Text)
      (here : get_elem? c.elided linenum ≡ some elided) (le : length line ≤ length elided) where
    less_reports-Returns :
        (reports : List Report) × (less_reports filename c linenum line ≡ some reports)
        × On linenum reports
    unfolding less_reports
    less_reports-Returns = elim (Option-cases (match_start tight_less line)) [
      | inl n ↦ ([], rw (n, less_reports), tt)
      | inr (m, q) ↦
          let k = last_group tight_less line m tight_less-EndsIn q in
          let (r, e, _) =
            close_expression-PointsInto c linenum (length (group_text m 1)) elided same here
              (omega arith) in
          let said =
            report filename linenum "whitespace/operators" 3 (codes "Missing spaces around <") in
          (
            when (missing r.2) said,
            rw (q, less_reports) (rw e refl),
            when-On (missing r.2) linenum said refl,
          )
    ]

    greater_reports-Returns :
        (reports : List Report) × (greater_reports filename c linenum line ≡ some reports)
        × On linenum reports
    unfolding greater_reports reverse_close_expression
    greater_reports-Returns = elim (Option-cases (match_start tight_greater line)) [
      | inl n ↦ ([], rw (n, greater_reports), tt)
      | inr (m, q) ↦
          let k = last_group tight_greater line m tight_greater-EndsIn q in
          let pos = length (group_text m 1) in
          let (x, at) = get_elem?-some elided pos (omega arith) in
          let r = reverse_close_at c linenum pos elided x in
          let e : reverse_close_expression c linenum pos ≡ some r =
            rw (here, at, reverse_close_expression) refl in
          let said =
            report filename linenum "whitespace/operators" 3 (codes "Missing spaces around >") in
          (
            when (missing r.2) said,
            rw (q, greater_reports) (rw e refl),
            when-On (missing r.2) linenum said refl,
          )
    ]

    comparison_reports-Returns :
        (reports : List Report) × (comparison_reports filename c linenum line ≡ some reports)
        × On linenum reports
    unfolding comparison_reports
    comparison_reports-Returns = elim (Option-cases (search_in tight_comparison line)) [
      | inr (m, q) ↦ (
        report filename linenum "whitespace/operators" 3
              (codes "Missing spaces around " ++ group_text m 1)
            ∷ [],
        rw (q, comparison_reports) refl,
        (refl, tt),
      )
      | inl n ↦ elim (Bool-cases (starts include_directive line)) [
        | inl t ↦ ([], rw (n, t, comparison_reports) refl, tt)
        | inr f ↦
            let (less, e1, on1) = less_reports-Returns in
            let (greater, e2, on2) = greater_reports-Returns in
            (
              less ++ greater,
              rw (n, f, comparison_reports) (rw e1 (rw e2 refl)),
              append-On linenum less greater on1 on2,
            )
      ]
    ]

-- On copies of one length CheckOperatorSpacing returns for every line of the file, and its reports
-- are on that line.
pub check_operator_spacing-Returns :
    (filename : Text) (c : CleansedLines) (linenum : ℕ)
    → SameLengths c
    → linenum < c.num_lines
    → (reports : List Report) × (check_operator_spacing filename c linenum ≡ some reports)
      × On linenum reports
unfolding check_operator_spacing
check_operator_spacing-Returns filename c linenum same lt =
    let (elided, here) = get_elem?-some c.elided linenum (omega (arith, same.elided)) in
    let (line, h, le) = hide_operators-Returns elided in
    let (comparisons, e, on) =
      comparison_reports-Returns filename c linenum same elided line here le in
    (
      assign_reports filename linenum line
          ++ (comparisons
              ++ (shift_reports filename linenum line ++ unary_reports filename linenum line)),
      rw (here, check_operator_spacing) (rw h (rw e refl)),
      append-On linenum _ _ (assign_reports-On filename c linenum line) (
          append-On linenum comparisons _ on (
            append-On linenum _ _ (shift_reports-On filename c linenum line)
              (unary_reports-On filename c linenum line))),
    )
