-- ===== src/Checks/Calls.antt =====
-- CheckSpacingForFunctionCall (build_support/cpplint.py).
use falcon_link.Prelude.{
  ℕ, not, ◌&&◌, ◌||◌, Option, none, some, List, [], ◌∷◌, ◌++◌, codes, is_space, Text, ◌==◌,
  if◌then◌else◌, get_elem?,
}
use falcon_link.Prelude.Options.{◌>>=◌}
use falcon_link.Regex.{
  Regex, letter, star, group, start, finish, boundary, not_ahead, search_in, word, one, one_of,
  none_of, dot, space, word_letter, plus, opt, ◌▸◌, ◌∣◌,
}
use falcon_link.Report.{Report, report}
use falcon_link.Nolint.{matches}
use falcon_link.RawStrings.{group_text}
use falcon_link.CleansedLines.{CleansedLines}
use falcon_link.Checks.{when}

-- \bif\s*\((.*)\)\s*{
unfoldable pub if_call : Regex
unfolding word
if_call =
    boundary
    ▸ word "if"
    ▸ star space
    ▸ one b'('
    ▸ group 1 (star dot)
    ▸ one b')'
    ▸ star space
    ▸ one b'{'

-- \bfor\s*\((.*)\)\s*{
unfoldable pub for_call : Regex
unfolding word
for_call =
    boundary
    ▸ word "for"
    ▸ star space
    ▸ one b'('
    ▸ group 1 (star dot)
    ▸ one b')'
    ▸ star space
    ▸ one b'{'

-- \bwhile\s*\((.*)\)\s*[{;]
unfoldable pub while_call : Regex
unfolding word one_of
while_call =
    boundary
    ▸ word "while"
    ▸ star space
    ▸ one b'('
    ▸ group 1 (star dot)
    ▸ one b')'
    ▸ star space
    ▸ one_of "{;"

-- \bswitch\s*\((.*)\)\s*{
unfoldable pub switch_call : Regex
unfolding word
switch_call =
    boundary
    ▸ word "switch"
    ▸ star space
    ▸ one b'('
    ▸ group 1 (star dot)
    ▸ one b')'
    ▸ star space
    ▸ one b'{'

-- The loop over the patterns: what stands between the parentheses of the first that matches.
unfoldable pub inside_of : List Regex → Text → Text
unfolding search_in
inside_of [] line = line
inside_of (r ∷ rs) line = elim (search_in r line) [
  | some m ↦ group_text m 1
  | none ↦ inside_of rs line
]

-- \b(if|for|while|switch|return|new|delete|catch|sizeof)\b
unfoldable pub control_words : Regex
unfolding word
control_words =
    boundary
    ▸ group 1 (
        word "if"
        ∣ word "for"
        ∣ word "while"
        ∣ word "switch"
        ∣ word "return"
        ∣ word "new"
        ∣ word "delete"
        ∣ word "catch"
        ∣ word "sizeof")
    ▸ boundary

--  \([^)]+\)\([^)]*(\)|,$)
unfoldable pub function_pointer : Regex
unfolding word none_of
function_pointer =
    word " ("
    ▸ plus (none_of ")")
    ▸ word ")("
    ▸ star (none_of ")")
    ▸ group 1 (one b')' ∣ one b',' ▸ finish)

--  \([^)]+\)\[[^\]]+\]
unfoldable pub array_pointer : Regex
unfolding word none_of
array_pointer = word " (" ▸ plus (none_of ")") ▸ word ")[" ▸ plus (none_of "]") ▸ one b']'

-- \w\s*\(\s(?!\s*\\$)
unfoldable pub space_after_call : Regex
space_after_call =
    word_letter ▸ star space ▸ one b'(' ▸ space ▸ not_ahead (star space ▸ one b'\\' ▸ finish)

-- \(\s+(?!(\s*\\)|\()
unfoldable pub space_after_paren : Regex
space_after_paren = one b'(' ▸ plus space ▸ not_ahead (group 1 (star space ▸ one b'\\') ∣ one b'(')

-- \w\s+\(
unfoldable pub space_before_paren : Regex
space_before_paren = word_letter ▸ plus space ▸ one b'('

-- _{0,2}asm_{0,2}\s+_{0,2}volatile_{0,2}\s+\(
unfoldable pub asm_volatile : Regex
unfolding word
asm_volatile =
    opt (one b'_' ▸ opt (one b'_'))
    ▸ word "asm"
    ▸ opt (one b'_' ▸ opt (one b'_'))
    ▸ plus space
    ▸ opt (one b'_' ▸ opt (one b'_'))
    ▸ word "volatile"
    ▸ opt (one b'_' ▸ opt (one b'_'))
    ▸ plus space
    ▸ one b'('

-- #\s*define|typedef|using\s+\w+\s*=
unfoldable pub defines_or_names : Regex
unfolding word
defines_or_names =
    one b'#' ▸ star space ▸ word "define"
    ∣ word "typedef"
    ∣ word "using" ▸ plus space ▸ plus word_letter ▸ star space ▸ one b'='

-- \w\s+\((\w+::)*\*\w+\)\(
unfoldable pub member_pointer : Regex
unfolding word
member_pointer =
    word_letter
    ▸ plus space
    ▸ one b'('
    ▸ star (group 1 (plus word_letter ▸ word "::"))
    ▸ one b'*'
    ▸ plus word_letter
    ▸ word ")("

-- \bcase\s+\(
unfoldable pub case_paren : Regex
unfolding word
case_paren = boundary ▸ word "case" ▸ plus space ▸ one b'('

-- \boperator_*\b
unfoldable pub operator_name : Regex
unfolding word
operator_name = boundary ▸ word "operator" ▸ star (one b'_') ▸ boundary

-- [^)]\s+\)\s*[^{\s]
unfoldable pub space_before_closing : Regex
unfolding none_of
space_before_closing =
    none_of ")" ▸ plus space ▸ one b')' ▸ star space ▸ letter (λ c. not (is_space c || c == b'{'))

-- ^\s+\)
unfoldable pub only_closing : Regex
only_closing = start ▸ plus space ▸ one b')'

-- What is said of the text between the parentheses.
unfoldable pub call_reports : Text → ℕ → Text → Text → List Report
unfolding matches
call_reports filename linenum line fncall =
    (if matches space_after_call fncall
      then report filename linenum "whitespace/parens" 4
          (codes "Extra space after ( in function call")
        ∷ []
      else when (matches space_after_paren fncall)
          (report filename linenum "whitespace/parens" 2 (codes "Extra space after (")))
    ++ (when
          (matches space_before_paren fncall
            && not (matches asm_volatile fncall)
            && not (matches defines_or_names fncall)
            && not (matches member_pointer fncall)
            && not (matches case_paren fncall))
          (report filename linenum "whitespace/parens" (if matches operator_name line then 0 else 4)
            (codes "Extra space before ( in function call"))
        ++ when (matches space_before_closing fncall) (
            report filename linenum "whitespace/parens" 2 (
              if matches only_closing fncall
              then codes "Closing ) should be moved to the previous line"
              else codes "Extra space before )")))

-- CheckSpacingForFunctionCall
unfoldable pub check_spacing_for_function_call : Text → CleansedLines → ℕ → Option (List Report)
unfolding inside_of call_reports matches
check_spacing_for_function_call filename clean_lines linenum =
    get_elem? clean_lines.elided linenum >>= λ line.
    let fncall = inside_of (if_call ∷ for_call ∷ while_call ∷ switch_call ∷ []) line in
    some (
      if matches control_words fncall
        || matches function_pointer fncall
        || matches array_pointer fncall
      then []
      else call_reports filename linenum line fncall)
