-- ===== src/Checks/Spacing.antt =====
-- CheckSpacing (build_support/cpplint.py).
use falcon_link.Prelude.{
  ℕ, zero, suc, ◌+◌, ◌-◌, Bool, true, false, not, ◌&&◌, ◌||◌, Option, none, some, List, [], ◌∷◌,
  ◌++◌, codes, text_eq, find, lstrip, Text, ltb, ◌==◌, if◌then◌else◌, length, get_elem?, take,
}
use falcon_link.Prelude.Options.{◌>>=◌}
use falcon_link.Regex.{
  Regex, star, group, finish, match_start, word, one, none_of, dot, space, word_letter, plus, opt,
  ◌▸◌, ◌∣◌,
}
use falcon_link.Report.{Report, report}
use falcon_link.Nolint.{matches}
use falcon_link.Nesting.Blocks.{starts}
use falcon_link.RawStrings.{group_text}
use falcon_link.CleansedLines.{CleansedLines}
use falcon_link.BlankLines.{is_blank_line}
use falcon_link.Nesting.{NestingState, in_namespace_body, in_extern_c}
use falcon_link.Checks.{when}
use falcon_link.Checks.Comments.{check_comment}

-- lines[i - 1]: for the first line it is the last one; `none` is an IndexError
unfoldable pub line_before : List Text → ℕ → Option Text
line_before lines zero = get_elem? lines (length lines - 1)
line_before lines (suc i) = get_elem? lines i

-- The text from the last occurrence of a letter on.
unfoldable pub from_last : ℕ → Text → Option Text
from_last c [] = none
from_last c (x ∷ t) = elim (from_last c t) [
  | some u ↦ some u
  | none ↦ if x == c then some (x ∷ t) else none
]

--  {6}\w
unfoldable pub six_spaces : Regex
unfolding word
six_spaces = word "      " ▸ word_letter

--  {4}\w[^\(]*\)\s*(const\s*)?(\{\s*$|:)
unfoldable pub parameters_end : Regex
unfolding word none_of
parameters_end =
    word "    "
    ▸ word_letter
    ▸ star (none_of "(")
    ▸ one b')'
    ▸ star space
    ▸ opt (group 1 (word "const" ▸ star space))
    ▸ group 2 (one b'{' ▸ star space ▸ finish ∣ one b':')

--  {4}:
unfoldable pub initializer : Regex
unfolding word
initializer = word "    :"

-- \s*}
unfoldable pub closing_line : Regex
closing_line = star space ▸ one b'}'

-- \s*(public|protected|private):
unfoldable pub access_line : Regex
unfolding word
access_line = star space ▸ group 1 (word "public" ∣ word "protected" ∣ word "private") ▸ one b':'

-- \w\s+\[
unfoldable pub space_before_bracket : Regex
space_before_bracket = word_letter ▸ plus space ▸ one b'['

-- (?:auto&?|delete|return)\s+\[
unfoldable pub bracket_words : Regex
unfolding word
bracket_words =
    (word "auto" ▸ opt (one b'&') ∣ word "delete" ∣ word "return") ▸ plus space ▸ one b'['

-- for *\(.*[^:]:[^: ]
unfoldable pub colon_no_space_behind : Regex
unfolding word none_of
colon_no_space_behind =
    word "for" ▸ star (one b' ') ▸ one b'(' ▸ star dot ▸ none_of ":" ▸ one b':' ▸ none_of ": "

-- for *\(.*[^: ]:[^:]
unfoldable pub colon_no_space_before : Regex
unfolding word none_of
colon_no_space_before =
    word "for" ▸ star (one b' ') ▸ one b'(' ▸ star dot ▸ none_of ": " ▸ one b':' ▸ none_of ":"

-- The search for the first line of an initializer list, from the line before a position up.
unfoldable pub initializer_list : List Text → ℕ → Option Bool
unfolding starts text_eq
initializer_list elided zero = some false
initializer_list elided (suc position) = elim (get_elem? elided position) [
  | none ↦ none
  | some line ↦ elim (starts six_spaces line) [
    | true ↦ initializer_list elided position
    | false ↦ some (text_eq (take 5 line) (codes "    :"))
  ]
]

-- The exceptions for a blank line at the start of a block.
unfoldable pub is_exception : List Text → ℕ → Text → Option Bool
unfolding initializer_list starts
is_exception elided linenum prev_line =
    if starts six_spaces prev_line
    then initializer_list elided (linenum - 1)
    else some (starts parameters_end prev_line || starts initializer prev_line)

-- A block starts on the line: its last brace is opened and not closed.
unfoldable pub opens_block : Text → Bool
unfolding from_last find
opens_block line = elim (from_last b'{' line) [
  | none ↦ false
  | some t ↦ elim (find t (codes "}")) [ none ↦ true | some _ ↦ false ]
]

unfoldable pub block_start_reports : Text → List Text → ℕ → Text → Option (List Report)
unfolding opens_block is_exception
block_start_reports filename elided linenum prev_line =
    if opens_block prev_line
    then (is_exception elided linenum prev_line >>= λ exception. some (
        when (not exception) (
          report filename linenum "whitespace/blank_line" 2
            (codes "Redundant blank line at the start of a code block should be deleted."))))
    else some []

-- The blank line at the end of a block, but not in a chain of if and else.
unfoldable pub block_end_reports : Text → CleansedLines → ℕ → Option (List Report)
unfolding starts find
block_end_reports filename clean_lines linenum =
    if ltb (linenum + 1) clean_lines.num_lines
    then (get_elem? clean_lines.lines_without_raw_strings (linenum + 1) >>= λ next_line. some (
        when
          (starts closing_line next_line
            && elim (find next_line (codes "} else ")) [ none ↦ true | some _ ↦ false ])
          (report filename linenum "whitespace/blank_line" 3
            (codes "Redundant blank line at the end of a code block should be deleted."))))
    else some []

unfoldable pub access_line_reports : Text → ℕ → Text → List Report
unfolding match_start
access_line_reports filename linenum prev_line = elim (match_start access_line prev_line) [
  | none ↦ []
  | some m ↦
      report filename linenum "whitespace/blank_line" 3
        (codes "Do not leave a blank line after \"" ++ (group_text m 1 ++ codes ":\""))
      ∷ []
]

-- What is said of a blank line.
unfoldable pub blank_line_reports : Text → CleansedLines → ℕ → Option (List Report)
unfolding line_before block_start_reports block_end_reports access_line_reports
blank_line_reports filename clean_lines linenum =
    line_before clean_lines.elided linenum >>= λ prev_line.
    block_start_reports filename clean_lines.elided linenum prev_line >>= λ at_start.
    block_end_reports filename clean_lines linenum >>= λ at_end.
    some (at_start ++ (at_end ++ access_line_reports filename linenum prev_line))

-- The first column of the next line that is not white space.
unfoldable pub next_line_start : CleansedLines → ℕ → Option ℕ
unfolding lstrip
next_line_start clean_lines linenum =
    if ltb (linenum + 1) clean_lines.num_lines
    then (get_elem? clean_lines.lines_without_raw_strings (linenum + 1) >>= λ next_line.
        some (length next_line - length (lstrip next_line)))
    else some 0

-- The brackets and the colon of a range-based loop.
unfoldable pub bracket_reports : Text → ℕ → Text → List Report
unfolding matches
bracket_reports filename linenum line =
    when (matches space_before_bracket line && not (matches bracket_words line))
      (report filename linenum "whitespace/braces" 5 (codes "Extra space before ["))
    ++ when (matches colon_no_space_behind line || matches colon_no_space_before line) (
        report filename linenum "whitespace/forcolon" 2
          (codes "Missing space around colon in range-based for loop"))

-- CheckSpacing
unfoldable pub check_spacing : Text → CleansedLines → ℕ → NestingState → Option (List Report)
unfolding is_blank_line blank_line_reports next_line_start check_comment bracket_reports
check_spacing filename clean_lines linenum s =
    get_elem? clean_lines.lines_without_raw_strings linenum >>= λ line.
    (if is_blank_line line && not (in_namespace_body s) && not (in_extern_c s)
      then blank_line_reports filename clean_lines linenum
      else some [])
    >>= λ blank. next_line_start clean_lines linenum >>= λ start_of_next.
        get_elem? clean_lines.elided linenum >>= λ elided. some (
          blank
          ++ (check_comment line filename linenum start_of_next
              ++ bracket_reports filename linenum elided))
