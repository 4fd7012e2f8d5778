-- ===== src/HeaderGuard/Checks/Reports.antt =====
-- Reports up to a line, and those of the NOLINT comment of a line.
use falcon_link.Prelude.{
  ℕ, ◌≤◌, Bool, true, false, not, ◌&&◌, Option, none, some, List, [], ◌∷◌, ◌++◌, codes, text_eq,
  starts_with, ends_with, Text, if◌then◌else◌, All,
}
use falcon_link.Report.{Report, report}
use falcon_link.Regex.{Found, search_in, group_of}
use falcon_link.Nolint.{
  Suppressions, nolint_pattern, parse_nolint_suppressions, parse_suppression, parse_category,
  suppressed_line, suppress, inner,
}
use falcon_link.Nolint.Categories.{error_categories, legacy_error_categories}
use falcon_link.Dict.{member, text_keys}

-- Each report is on a line up to the bound.
abbrev pub UpTo : ℕ → List Report → Type 0
UpTo bound = All (λ r. r.linenum ≤ bound)

pub UpTo-if :
    (b : Bool) (bound : ℕ) (rs ss : List Report)
    → UpTo bound rs
    → UpTo bound ss
    → UpTo bound (if b then rs else ss)
UpTo-if true bound rs ss h k = h
UpTo-if false bound rs ss h k = k

second-if :
    (b : Bool) (bound : ℕ) (p q : Suppressions × List Report)
    → UpTo bound p.1
    → UpTo bound q.1
    → UpTo bound (if b then p else q).1
second-if true bound p q h k = h
second-if false bound p q h k = k

parse_suppression-UpTo :
    (filename : Text) (linenum line bound : ℕ) (c : Option Text) (s : Suppressions)
    → linenum ≤ bound
    → UpTo bound (parse_suppression filename linenum line c s).1
unfolding parse_suppression parse_category
parse_suppression-UpTo filename linenum line bound none s le = tt
parse_suppression-UpTo filename linenum line bound (some c) s le =
    let none_made : Suppressions × List Report = (s, []) in
    let unknown : Suppressions × List Report = (
      s,
      report filename linenum "readability/nolint" 5
            (codes "Unknown NOLINT error category: " ++ inner c)
          ∷ [],
    ) in
    let h : UpTo bound unknown.1 = (le, tt) in
    let known = member (inner c) error_categories in
    let old = not (member (inner c) legacy_error_categories) in
    let obeyed : Suppressions × List Report = (suppress (some (inner c)) line s, []) in
    let all_lines : Suppressions × List Report = (suppress none line s, []) in
    let inside : Suppressions × List Report =
      if known then obeyed else if old then unknown else none_made in
    let paired = starts_with c (codes "(") && ends_with c (codes ")") in
    let bounded : UpTo bound inside.1 =
      second-if known bound obeyed (if old then unknown else none_made) tt
        (second-if old bound unknown none_made h tt) in
    second-if (text_eq c (codes "(*)")) bound all_lines (if paired then inside else none_made) tt
      (second-if paired bound inside none_made bounded tt)

pub parse_nolint_suppressions-UpTo :
    (filename line : Text) (linenum bound : ℕ) (s : Suppressions)
    → linenum ≤ bound
    → UpTo bound (parse_nolint_suppressions filename line linenum s).1
unfolding parse_nolint_suppressions
parse_nolint_suppressions-UpTo filename line linenum bound s le = go (search_in nolint_pattern line)
  where
    go :
        (o : Option Found)
        → UpTo bound
            (elim o as (λ _. Suppressions × List Report) [
              | some m ↦
                  parse_suppression filename linenum (suppressed_line m linenum) (group_of m 2) s
              | none ↦ (s, [])
            ]).1
    go none = tt
    go (some m) =
        parse_suppression-UpTo filename linenum (suppressed_line m linenum) bound (group_of m 2) s
          le
