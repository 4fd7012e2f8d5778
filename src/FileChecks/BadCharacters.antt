-- ===== src/FileChecks/BadCharacters.antt =====
-- The reports of CheckForBadCharacters, line by line.
use falcon_link.Prelude.{
  ℕ, zero, suc, ◌+◌, ◌<◌, ◌≡◌, refl, true, false, Option, none, some, List, [], ◌∷◌, ◌++◌,
  append-nil, arith, codes, Text, ◌==◌, if◌then◌else◌, get_elem?,
}
use falcon_link.Report.{Report, report}
use falcon_link.Regex.{contains}
use falcon_link.FileChecks.{bad_characters, bad_characters_from, check_for_bad_characters}

-- The reports on one line, in order.
abbrev pub reports_at : ℕ → List Report → List Report
reports_at k [] = []
reports_at k (r ∷ rs) = if r.linenum == k then r ∷ reports_at k rs else reports_at k rs

reports_at-append :
    (k : ℕ) (rs ss : List Report) → reports_at k (rs ++ ss) ≡ reports_at k rs ++ reports_at k ss
reports_at-append k [] ss = refl
reports_at-append k (r ∷ rs) ss = ground (arith, reports_at-append k rs ss)

reports_at-bad_characters :
    (filename : Text) (n k : ℕ) (line : Text)
    → reports_at k (bad_characters filename n line)
      ≡ (if n == k then bad_characters filename n line else [])
unfolding bad_characters
reports_at-bad_characters filename n k line = ground arith

reports_at-earlier :
    (filename : Text) (n k : ℕ) (lines : List Text)
    → k < n
    → reports_at k (bad_characters_from filename n lines) ≡ []
unfolding bad_characters_from
reports_at-earlier filename n k [] lt = refl
reports_at-earlier filename n k (line ∷ lines) lt = ground (
  arith,
  reports_at-append k (bad_characters filename n line) (bad_characters_from filename (n + 1) lines),
  reports_at-bad_characters filename n k line,
  reports_at-earlier filename (n + 1) k lines (omega arith),
)

-- What is to be said of the line, if there is one: the replacement character U+FFFD and the NUL
-- character are each reported once.
abbrev pub due : Text → ℕ → Option Text → List Report
due filename k none = []
due filename k (some line) =
    (if contains 65533 line
      then report filename k "readability/utf8" 5
          (codes "Line contains invalid UTF-8 (or Unicode replacement character).")
        ∷ []
      else [])
    ++ (if contains 0 line
        then report filename k "readability/nul" 5 (codes "Line contains NUL byte.") ∷ []
        else [])

bad_characters-due :
    (filename : Text) (k : ℕ) (line : Text)
    → bad_characters filename k line ≡ due filename k (some line)
unfolding bad_characters
bad_characters-due filename k line = refl

reports_at-from :
    (filename : Text) (n k : ℕ) (lines : List Text)
    → reports_at (n + k) (bad_characters_from filename n lines)
      ≡ due filename (n + k) (get_elem? lines k)
unfolding bad_characters_from
reports_at-from filename n k [] = refl
reports_at-from filename n zero (line ∷ lines) =
    let e : n + 0 ≡ n = omega arith in
    let same : (n == n) ≡ true = ground arith in
    rw
      (
        e,
        reports_at-append n (bad_characters filename n line)
            (bad_characters_from filename (n + 1) lines),
        reports_at-bad_characters filename n n line,
        same,
        reports_at-earlier filename (n + 1) n lines (omega arith),
        append-nil {0} {A = Report},
      )
      (bad_characters-due filename n line)
reports_at-from filename n (suc k) (line ∷ lines) =
    let e : n + suc k ≡ n + 1 + k = omega arith in
    let other : (n == n + 1 + k) ≡ false = ground arith in
    rw
      (
        e,
        reports_at-append (n + 1 + k) (bad_characters filename n line)
            (bad_characters_from filename (n + 1) lines),
        reports_at-bad_characters filename n (n + 1 + k) line,
        other,
      )
      (reports_at-from filename (n + 1) k lines)

-- CheckForBadCharacters says of each line of the file, under its index, whether it has a
-- replacement character and whether it has a NUL character, and says nothing else.
pub check_for_bad_characters-reports_at :
    (filename : Text) (lines : List Text) (k : ℕ)
    → reports_at k (check_for_bad_characters filename lines) ≡ due filename k (get_elem? lines k)
unfolding check_for_bad_characters
check_for_bad_characters-reports_at filename lines k =
    let e : 0 + k ≡ k = omega arith in rw e at (reports_at-from filename 0 k lines)
