-- ===== src/Comments.antt =====
-- Comments (build_support/cpplint.py): IsCppString, the removal of multi-line comments from the list of
-- lines, and CleanseComments for one line.
pub mod Scan
pub mod MultiLine
use falcon_link.Prelude.{
  ℕ, zero, suc, ◌+◌, ◌-◌, ◌*◌, ◌/◌, ◌%◌, ◌^◌, ◌≤◌, ◌<◌, ◌≡◌, ◌∙◌, ◌≡⟨◌⟩◌, ◌∎, ◌≢◌, ◌↔◌, ◌⊎◌, Bool,
  true, false, not, ◌&&◌, ◌||◌, Option, none, some, List, [], ◌∷◌, ◌++◌, codes, starts_with,
  ends_with, find, find_from, count, replace, rstrip, strip, Text, ltb, leb, ◌==◌, if◌then◌else◌,
  length, set, take, drop,
}
use falcon_link.Regex.{
  Regex, letter, star, finish, ahead, not_ahead, group, one, word, none_of, space, plus, is_word,
  ◌▸◌, ◌∣◌, remove_all,
}
use falcon_link.Report.{Report, report}

-- IsCppString. The parity of a difference is that of the sum.
unfoldable pub is_cpp_string : Text → Bool
unfolding count replace
is_cpp_string line =
    let clean = replace line (codes "\\\\") (codes "XX") in
    (count clean (codes "\"") + count clean (codes "\\\"") + count clean (codes "'\"'")) % 2 == 1

-- The line begins a comment that goes beyond it.
pub opens_comment : Text → Bool
unfolding strip starts_with find_from
opens_comment line = elim (starts_with (strip line) (codes "/*")) [
  | false ↦ false
  | true ↦ elim (find_from (strip line) (codes "*/") 2) [ none ↦ true | some _ ↦ false ]
]

-- The line ends a comment.
pub closes_comment : Text → Bool
unfolding strip ends_with
closes_comment line = ends_with (strip line) (codes "*/")

-- `while lineix < len(lines)`: the first line from `lineix` on that passes the test
unfoldable pub scan_lines : (Text → Bool) → List Text → ℕ → Option ℕ
scan_lines test [] lineix = none
scan_lines test (line ∷ lines) lineix = elim (test line) [
  | true ↦ some lineix
  | false ↦ scan_lines test lines (lineix + 1)
]

-- The index, or `len(lines)`.
pub next_line : (Text → Bool) → List Text → ℕ → ℕ
unfolding scan_lines
next_line test lines lineix = elim (scan_lines test (drop lineix lines) lineix) [
  | some i ↦ i
  | none ↦ length lines
]

-- FindNextMultiLineCommentStart
unfoldable pub find_next_multi_line_comment_start : List Text → ℕ → ℕ
unfolding next_line opens_comment
find_next_multi_line_comment_start = next_line opens_comment

-- FindNextMultiLineCommentEnd
unfoldable pub find_next_multi_line_comment_end : List Text → ℕ → ℕ
unfolding next_line closes_comment
find_next_multi_line_comment_end = next_line closes_comment

-- RemoveMultiLineCommentsFromRange, with the rounds of the `for` loop that are left
unfoldable pub remove_range : ℕ → ℕ → List Text → List Text
remove_range zero i lines = lines
remove_range (suc n) i lines = remove_range n (i + 1) (set lines i (codes "/**/"))

-- The loop of RemoveMultiLineComments; `none` means that the fuel ran out.
remove_comments : ℕ → Text → ℕ → List Text → Option (List Text × List Report)
remove_comments zero filename lineix lines = none
remove_comments (suc fuel) filename lineix lines = elim (ltb lineix (length lines)) [
  | false ↦ some (lines, [])
  | true ↦
      let lineix_begin = find_next_multi_line_comment_start lines lineix in
      elim (leb (length lines) lineix_begin) [
        | true ↦ some (lines, [])
        | false ↦
            let lineix_end = find_next_multi_line_comment_end lines lineix_begin in
            elim (leb (length lines) lineix_end) [
              | true ↦ some (
                lines,
                report filename (lineix_begin + 1) "readability/multiline_comment" 5
                      (codes "Could not find end of multi-line comment")
                    ∷ [],
              )
              | false ↦
                  remove_comments fuel filename (lineix_end + 1)
                    (remove_range (lineix_end + 1 - lineix_begin) lineix_begin lines)
            ]
      ]
]

-- RemoveMultiLineComments: the list that it leaves, and its reports. Each round goes past a line.
unfoldable pub remove_multi_line_comments : Text → List Text → Option (List Text × List Report)
unfolding remove_comments
remove_multi_line_comments filename lines = remove_comments (length lines + 1) filename 0 lines

-- _RE_PATTERN_C_COMMENTS: /\*(?:[^*]|\*(?!/))*\*/
pub c_comments : Regex
unfolding word none_of
c_comments = word "/*" ▸ star (none_of "*" ∣ one b'*' ▸ not_ahead (one b'/')) ▸ word "*/"

-- _RE_PATTERN_CLEANSE_LINE_C_COMMENTS
pub cleanse_line_c_comments : Regex
unfolding c_comments
cleanse_line_c_comments = group 1 (
    star space ▸ c_comments ▸ star space ▸ finish
    ∣ c_comments ▸ plus space
    ∣ plus space ▸ c_comments ▸ ahead (letter (λ c. not (is_word c)))
    ∣ c_comments)

-- CleanseComments
unfoldable pub cleanse_comments : Text → Text
unfolding is_cpp_string find rstrip remove_all cleanse_line_c_comments
cleanse_comments line = remove_all cleanse_line_c_comments (elim (find line (codes "//")) [
  | none ↦ line
  | some commentpos ↦
      if not (is_cpp_string (take commentpos line)) then rstrip (take commentpos line) else line
])
