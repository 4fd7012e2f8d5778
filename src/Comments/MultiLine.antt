-- ===== src/Comments/MultiLine.antt =====
-- RemoveMultiLineComments ends, keeps the number of lines, and leaves no comment open.
use falcon_link.Prelude.{
  ℕ, zero, suc, ◌+◌, ◌-◌, ◌≤◌, ◌<◌, ◌≡◌, refl, ap, ◌∙◌, ◌⊎◌, inl, inr, Bool, false, Option, none,
  some, List, [], ◌∷◌, arith, any, codes, Text, ltb, leb, leb→le, Bool-cases, length, set,
  cons-ne-nil, List-cases, length-set,
}
use falcon_link.Report.{Report, report}
use falcon_link.Comments.{
  opens_comment, closes_comment, scan_lines, next_line, find_next_multi_line_comment_start,
  find_next_multi_line_comment_end, remove_range, remove_comments, remove_multi_line_comments,
}
use falcon_link.Comments.Scan.{NoneBefore, remove_range-NoneBefore, next_line-lt, next_line-ge}

length-remove_range : (n i : ℕ) (lines : List Text) → length (remove_range n i lines) ≡ length lines
unfolding remove_range
length-remove_range zero i lines = refl
length-remove_range (suc n) i lines =
    length-remove_range n (i + 1) (set lines i (codes "/**/")) ∙ length-set lines i (codes "/**/")

blank-closed : opens_comment (codes "/**/") ≡ false
unfolding opens_comment codes
blank-closed = refl

scan_lines-any :
    (p : Text → Bool) (lines : List Text) (i : ℕ)
    → any p lines ≡ false
    → scan_lines p lines i ≡ none
unfolding scan_lines any
scan_lines-any p [] i h = refl
scan_lines-any p (l ∷ lines) i h = ground (arith, scan_lines-any p lines (i + 1))

any_all :
    (p : Text → Bool) (i : ℕ) (lines : List Text)
    → i ≡ length lines
    → NoneBefore p i lines
    → any p lines ≡ false
unfolding any
any_all p zero [] e h = h
any_all p (suc i) (l ∷ lines) e h = ground (arith, any_all p i lines)
any_all p zero (l ∷ lines) e h = absurd (omega arith)
any_all p (suc i) [] e h = absurd (omega arith)

-- What the loop leaves of the lines.
record Removed (lines : List Text) (result : Option (List Text × List Report)) : Type 0 where
  after : List Text
  reports : List Report
  returns : result ≡ some (after, reports)
  same_length : length after ≡ length lines
  few_reports : length reports ≤ 1
  closed : reports ≡ [] → any opens_comment after ≡ false

Removed-stop :
    (filename : Text) (fuel i : ℕ) (lines : List Text)
    → ltb i (length lines) ≡ false
    → i ≤ length lines
    → NoneBefore opens_comment i lines
    → Removed lines (remove_comments (suc fuel) filename i lines)
unfolding remove_comments any
Removed-stop filename fuel i lines off le before = record {
  after = lines;
  reports = [];
  returns = rw (off, remove_comments);
  same_length = refl;
  few_reports = omega arith;
  closed = λ _. let q : i ≡ length lines = ground arith in any_all opens_comment i lines q before;
}

remove_comments-Removed :
    (filename : Text) (fuel i : ℕ) (lines : List Text)
    → length lines < fuel + i
    → i ≤ length lines
    → NoneBefore opens_comment i lines
    → Removed lines (remove_comments fuel filename i lines)
unfolding remove_comments
remove_comments-Removed filename zero i lines enough le before = absurd (omega arith)
remove_comments-Removed filename (suc fuel) i lines enough le before =
    elim (Bool-cases (ltb i (length lines))) [
      | inr off ↦ Removed-stop filename fuel i lines off le before
      | inl on ↦
          let b = find_next_multi_line_comment_start lines i in
          elim (Bool-cases (leb (length lines) b)) [
            | inl no_start ↦ record {
              after = lines;
              reports = [];
              returns = rw (on, no_start, remove_comments);
              same_length = refl;
              few_reports = omega arith;
              closed = λ _.
                  next_line-ge opens_comment lines i b
                    (unfold find_next_multi_line_comment_start in refl) (leb→le _ _ no_start) le
                    before;
            }
            | inr start ↦
                let e = find_next_multi_line_comment_end lines b in
                let (up, clear) =
                  next_line-lt opens_comment lines i b le
                    (unfold find_next_multi_line_comment_start in refl) (ground arith) in
                elim (Bool-cases (leb (length lines) e)) [
                  | inl no_end ↦ record {
                    after = lines;
                    reports =
                        report filename (b + 1) "readability/multiline_comment" 5
                          (codes "Could not find end of multi-line comment")
                        ∷ [];
                    returns = rw (on, start, no_end, remove_comments);
                    same_length = refl;
                    few_reports = omega arith;
                    closed = λ q. absurd (cons-ne-nil q);
                  }
                  | inr end ↦
                      let (down, _) =
                        next_line-lt closes_comment lines b e (ground arith)
                          (unfold find_next_multi_line_comment_end in refl) (ground arith) in
                      let range = remove_range (e + 1 - b) b lines in
                      let same = length-remove_range (e + 1 - b) b lines in
                      let s : b + (e + 1 - b) ≡ e + 1 = omega arith in
                      let r =
                        remove_comments-Removed filename fuel (e + 1) range (omega (arith, same))
                          (ground (arith, same))
                          (rw s at (
                            remove_range-NoneBefore opens_comment (e + 1 - b) b lines blank-closed
                              (ground arith) (clear before))) in
                      record {
                        after = r.after;
                        reports = r.reports;
                        returns = rw (on, start, end, remove_comments) r.returns;
                        same_length = r.same_length ∙ same;
                        few_reports = r.few_reports;
                        closed = r.closed;
                      }
                ]
          ]
    ]

no_start :
    (lines : List Text)
    → any opens_comment lines ≡ false
    → find_next_multi_line_comment_start lines 0 ≡ length lines
unfolding find_next_multi_line_comment_start next_line
no_start lines h = rw (scan_lines-any opens_comment lines 0 h, next_line)

-- RemoveMultiLineComments ends, with as many lines as before; it makes one report, or makes none and
-- leaves no line that opens a comment which goes beyond it.
pub remove_multi_line_comments-Removed :
    (filename : Text) (lines : List Text)
    → (after : List Text) × (reports : List Report) × (remove_multi_line_comments filename lines
        ≡ some (after, reports))
      × (length after ≡ length lines)
      × ((length reports ≡ 1)
          ⊎ ((reports ≡ []) × (find_next_multi_line_comment_start after 0 ≡ length after)))
unfolding remove_multi_line_comments
remove_multi_line_comments-Removed filename lines =
    let r =
      remove_comments-Removed filename (length lines + 1) 0 lines (omega arith) (omega arith)
        (unfold any in refl) in
    (
      r.after,
      r.reports,
      r.returns,
      r.same_length,
      elim (List-cases r.reports) [
        | inl e ↦ inr (e, no_start r.after (r.closed e))
        | inr (x, xs, e) ↦ inl (omega (arith, r.few_reports, ap (length {0}) e))
      ],
    )
