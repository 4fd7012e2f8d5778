-- ===== src/HeaderGuard/Checks/Bounds.antt =====
-- The reports of CheckForHeaderGuard are on lines of the file.
use falcon_link.Prelude.{
  ℕ, ◌+◌, ◌-◌, ◌≤◌, ◌≡◌, refl, inl, inr, Bool, true, false, not, ◌||◌, Option, none, some, List, [],
  ◌∷◌, ◌++◌, map, arith, any, codes, text_eq, Text, if◌then◌else◌, Bool-cases, length, get_or, All,
  All-append,
}
use falcon_link.Report.{Report, report}
use falcon_link.Regex.{Found, group_of, match_start}
use falcon_link.Nolint.{Suppressions, parse_nolint_suppressions, matches}
use falcon_link.Dict.{text_keys}
use falcon_link.CleansedLines.{CleansedLines}
use falcon_link.HeaderGuard.{FileNames}
use falcon_link.HeaderGuard.Letters.{Option-cases, get_header_guard_cpp_variable-Returns}
use falcon_link.HeaderGuard.Checks.{
  Guard, no_guard, see_ifndef, see_define, see_endif, find_guard, split_words, endif_report,
  deprecated, check_endif, check_ifndef, line_guard, block_guard, no_single_line_comments, Made,
  parse_then, check_guard, check_for_header_guard, nolint_guard, pragma_once,
}
use falcon_link.HeaderGuard.Checks.Reports.{UpTo, UpTo-if, parse_nolint_suppressions-UpTo}

-- The lines that the loop finds are up to the bound.
abbrev InFile : ℕ → Guard → Type 0
InFile bound g = (g.ifndef_linenum ≤ bound) × (g.endif_linenum ≤ bound)

InFile-if :
    (b : Bool) (bound : ℕ) (g h : Guard)
    → InFile bound g
    → InFile bound h
    → InFile bound (if b then g else h)
InFile-if true bound g h p q = p
InFile-if false bound g h p q = q

see_ifndef-InFile :
    (n bound : ℕ) (ws : List Text) (g : Guard)
    → n ≤ bound
    → InFile bound g
    → InFile bound (see_ifndef n ws g)
unfolding see_ifndef
see_ifndef-InFile n bound [] g le h = h
see_ifndef-InFile n bound (a ∷ []) g le h = h
see_ifndef-InFile n bound (a ∷ b ∷ ws) g le h = InFile-if _ bound _ _ (le, h.1) h

see_define-InFile :
    (bound : ℕ) (ws : List Text) (g : Guard) → InFile bound g → InFile bound (see_define ws g)
unfolding see_define
see_define-InFile bound [] g h = h
see_define-InFile bound (a ∷ []) g h = h
see_define-InFile bound (a ∷ b ∷ ws) g h = InFile-if _ bound _ _ h h

see_endif-InFile :
    (n bound : ℕ) (line : Text) (g : Guard)
    → n ≤ bound
    → InFile bound g
    → InFile bound (see_endif n line g)
unfolding see_endif
see_endif-InFile n bound line g le h = InFile-if _ bound _ _ (h.0, le) h

find_guard-InFile :
    (n bound : ℕ) (lines : List Text) (g : Guard)
    → n + length lines ≤ bound + 1
    → InFile bound g
    → InFile bound (find_guard n lines g)
unfolding find_guard
find_guard-InFile n bound [] g le h = h
find_guard-InFile n bound (line ∷ lines) g le h =
    find_guard-InFile (n + 1) bound lines _ (omega arith) (
      see_endif-InFile n bound line _ (omega arith) (
        see_define-InFile bound (split_words [] line) _
          (see_ifndef-InFile n bound (split_words [] line) g (omega arith) h)))

deprecated-UpTo :
    (filename : Text) (linenum bound : ℕ) (m : Found) (a b : Text)
    → linenum ≤ bound
    → UpTo bound (deprecated filename linenum m a b)
unfolding deprecated endif_report
deprecated-UpTo filename linenum bound m a b le =
    elim (group_of m 1)
      as (λ o. UpTo bound (elim o as (λ _. List Report) [
        | none ↦ []
        | some _ ↦ endif_report filename linenum 0 a b
      ])) [ none ↦ tt | some _ ↦ (le, tt) ]

missing-UpTo :
    (filename : Text) (linenum bound : ℕ) (a b : Text)
    → linenum ≤ bound
    → UpTo bound (endif_report filename linenum 5 a b)
unfolding endif_report
missing-UpTo filename linenum bound a b le = (le, tt)

check_endif-UpTo :
    (filename cppvar : Text) (raw_lines : List Text) (g : Guard) (bound : ℕ)
    → g.endif_linenum ≤ bound
    → UpTo bound (check_endif filename cppvar raw_lines g)
unfolding check_endif
check_endif-UpTo filename cppvar raw_lines g bound le =
    let missing = missing-UpTo filename g.endif_linenum bound (codes "// ") cppvar le in
    elim (Option-cases (match_start (line_guard cppvar) g.endif)) [
      | inr (m, e) ↦
          rw (e, check_endif)
            (deprecated-UpTo filename g.endif_linenum bound m (codes "// ") cppvar le)
      | inl e ↦ elim (Option-cases (match_start (block_guard cppvar) g.endif)) [
        | inr (m, q) ↦
            rw (e, q, check_endif)
              (UpTo-if (no_single_line_comments raw_lines) bound _ _
                (deprecated-UpTo filename g.endif_linenum bound m (codes "/* ")
                  (cppvar ++ codes " */") le)
                missing)
        | inl q ↦
            rw (e, q, check_endif)
              (UpTo-if (no_single_line_comments raw_lines) bound _ _ missing missing)
      ]
    ]

check_ifndef-UpTo :
    (filename cppvar : Text) (g : Guard) (bound : ℕ)
    → g.ifndef_linenum ≤ bound
    → UpTo bound (check_ifndef filename cppvar g)
unfolding check_ifndef
check_ifndef-UpTo filename cppvar g bound le =
    UpTo-if (text_eq g.ifndef cppvar) bound _ _ tt (le, tt)

-- Each report is on a line up to the bound, whatever tables are in force.
abbrev pub MadeUpTo : ℕ → List (Suppressions × Report) → Type 0
MadeUpTo bound = All (λ (m : Suppressions × Report). m.1.linenum ≤ bound)

UpTo-Made :
    (bound : ℕ) (t : Suppressions) (rs : List Report)
    → UpTo bound rs
    → MadeUpTo bound (map (λ r. (t, r)) rs)
UpTo-Made bound t [] h = tt
UpTo-Made bound t (r ∷ rs) (h, hs) = (h, UpTo-Made bound t rs hs)

parse_then-UpTo :
    (filename : Text) (raw_lines : List Text) (linenum bound : ℕ) (rs : List Report)
    (s : Suppressions)
    → linenum ≤ bound
    → UpTo bound rs
    → MadeUpTo bound (parse_then filename raw_lines linenum rs s).1
unfolding parse_then
parse_then-UpTo filename raw_lines linenum bound rs s le h =
    let line = get_or raw_lines linenum [] in
    let p = parse_nolint_suppressions filename line linenum s in
    UpTo-Made bound p.0 (p.1 ++ rs) (
      All-append (λ (r : Report). r.linenum ≤ bound) p.1 rs
        (parse_nolint_suppressions-UpTo filename line linenum bound s le) h)

Made-if :
    (b : Bool) (bound : ℕ) (p q : Made)
    → MadeUpTo bound p.1
    → MadeUpTo bound q.1
    → MadeUpTo bound (if b then p else q).1
Made-if true bound p q h k = h
Made-if false bound p q h k = k

check_guard-UpTo :
    (filename cppvar : Text) (raw_lines : List Text) (g : Guard) (s : Suppressions) (bound : ℕ)
    → InFile bound g
    → MadeUpTo bound (check_guard filename cppvar raw_lines g s).1
unfolding check_guard
check_guard-UpTo filename cppvar raw_lines g s bound (a, b) =
    let parsed =
      parse_then filename raw_lines g.ifndef_linenum (check_ifndef filename cppvar g) s in
    let first : Made = if text_eq g.ifndef cppvar then (s, []) else parsed in
    All-append (λ (m : Suppressions × Report). m.1.linenum ≤ bound) first.1 _
      (Made-if (text_eq g.ifndef cppvar) bound (s, []) parsed tt
        (parse_then-UpTo filename raw_lines g.ifndef_linenum bound (check_ifndef filename cppvar g)
          s a (check_ifndef-UpTo filename cppvar g bound a)))
      (parse_then-UpTo filename raw_lines g.endif_linenum bound
        (check_endif filename cppvar raw_lines g) first.0 b
        (check_endif-UpTo filename cppvar raw_lines g bound b))

-- The report on a file without a guard.
abbrev no_guard_made : Suppressions → Text → Text → Made
no_guard_made s filename cppvar = (
  s,
  (
    s,
    report filename 0 "build/header_guard" 5
        (codes "No #ifndef header guard found, suggested CPP variable is: " ++ cppvar),
  )
      ∷ [],
)

-- CheckForHeaderGuard returns on every file, and each of its reports, those on NOLINT comments
-- included, is on a line of the file; on line 0 if there is none.
pub check_for_header_guard-MadeUpTo :
    (fs : FileNames) (root : Option Text) (filename : Text) (lines : CleansedLines)
    (s : Suppressions)
    → (made : Made) × (check_for_header_guard fs root filename lines s ≡ some made)
      × MadeUpTo (length lines.lines_without_raw_strings - 1) made.1
unfolding check_for_header_guard
check_for_header_guard-MadeUpTo fs root filename lines s =
    let raw = lines.lines_without_raw_strings in
    let (cppvar, e, _) = get_header_guard_cpp_variable-Returns fs root filename in
    let g = find_guard 0 raw no_guard in
    elim (Bool-cases (any (matches nolint_guard) raw || any (matches pragma_once) raw)) [
      | inl off ↦ ((s, []), rw (off, check_for_header_guard) refl, tt)
      | inr on ↦
          elim (Bool-cases
            (text_eq g.ifndef [] || (text_eq g.define [] || not (text_eq g.ifndef g.define)))) [
              | inl bad ↦ (
                no_guard_made s filename cppvar,
                rw (on, e, bad, check_for_header_guard) refl,
                (omega arith, tt),
              )
              | inr good ↦ (
                check_guard filename cppvar raw g s,
                rw (on, e, good, check_for_header_guard) refl,
                check_guard-UpTo filename cppvar raw g s (length raw - 1) (
                    find_guard-InFile 0 (length raw - 1) raw no_guard (omega arith)
                      (omega arith, omega arith)),
              )
            ]
    ]
