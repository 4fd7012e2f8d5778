-- ===== src/Checks/Initializers.antt =====
-- _IsType and CheckBracesSpacing (build_support/cpplint.py).
use falcon_link.Prelude.{
  ℕ, zero, suc, ◌+◌, ◌-◌, min, Bool, true, false, not, ◌&&◌, ◌||◌, Option, none, some, List, [],
  ◌∷◌, ◌++◌, any, codes, find, is_space, join, Text, ltb, ◌==◌, if◌then◌else◌, length, get_elem?,
  take, drop,
}
use falcon_link.Prelude.Options.{◌>>=◌}
use falcon_link.Regex.{
  Regex, empty, letter, star, group, start, finish, boundary, match_start, word_of, word, one,
  one_of, none_of, dot, space, non_space, plus, opt, ◌▸◌, ◌∣◌,
}
use falcon_link.Report.{Report, report}
use falcon_link.Nolint.{matches}
use falcon_link.Nesting.Blocks.{starts}
use falcon_link.RawStrings.{group_text}
use falcon_link.CleansedLines.{CleansedLines}
use falcon_link.Expression.{close_expression}
use falcon_link.Nesting.{Block, NestingState, is_namespace}
use falcon_link.Checks.{when}

-- ^(?:(char(16_t|32_t)?)|wchar_t|bool|short|int|long|signed|unsigned|float|double|(ptrdiff_t|size_t|max_align_t|nullptr_t)|(u?int(_fast|_least)?(8|16|32|64)_t)|(u?int(max|ptr)_t)|)$
unfoldable pub types : Regex
unfolding word
types =
    start
    ▸ (group 1 (word "char" ▸ opt (group 2 (word "16_t" ∣ word "32_t")))
        ∣ word "wchar_t"
        ∣ word "bool"
        ∣ word "short"
        ∣ word "int"
        ∣ word "long"
        ∣ word "signed"
        ∣ word "unsigned"
        ∣ word "float"
        ∣ word "double"
        ∣ group 3 (word "ptrdiff_t" ∣ word "size_t" ∣ word "max_align_t" ∣ word "nullptr_t")
        ∣ group 4 (
            opt (one b'u')
            ▸ word "int"
            ▸ opt (group 5 (word "_fast" ∣ word "_least"))
            ▸ group 6 (one b'8' ∣ word "16" ∣ word "32" ∣ word "64")
            ▸ word "_t")
        ∣ group 7 (opt (one b'u') ▸ word "int" ▸ group 8 (word "max" ∣ word "ptr") ▸ word "_t")
        ∣ empty)
    ▸ finish

-- ^.*(\b\S+)$
unfoldable pub last_token : Regex
last_token = start ▸ star dot ▸ group 1 (boundary ▸ plus non_space) ▸ finish

-- The last token of an expression.
unfoldable pub token_of : Text → Text
unfolding match_start
token_of expr = elim (match_start last_token expr) [ some m ↦ group_text m 1 | none ↦ expr ]

-- \b(?:typename|class|struct)\s+token\b
pub typename_pattern : Text → Regex
unfolding word word_of
typename_pattern token =
    boundary
    ▸ (word "typename" ∣ word "class" ∣ word "struct")
    ▸ plus space
    ▸ word_of token
    ▸ boundary

-- The search up for the keyword, from the line before a number; inside, `none` is that there is none.
unfoldable pub find_template : List Text → ℕ → ℕ → Option (Option ℕ)
unfolding find
find_template elided next_start zero = some none
find_template elided next_start (suc first) =
    let rest = find_template elided next_start first in
    if ltb first next_start
    then some none
    else get_elem? elided first >>= λ line. elim (find line (codes "template")) [
      | some _ ↦ some (some first)
      | none ↦ rest
    ]

-- The line on which the block around begins.
pub next_block_start : List Block → ℕ
next_block_start [] = 0
next_block_start (b ∷ stack) = b.starting_linenum

-- The walk up the nesting stack.
unfoldable pub is_type_of_stack : List Text → Regex → List Block → Option Bool
unfolding find_template next_block_start any matches
is_type_of_stack elided pattern [] = some false
is_type_of_stack elided pattern (b ∷ stack) =
    let rest = is_type_of_stack elided pattern stack in
    let last = b.starting_linenum in
    if is_namespace b
    then some false
    else find_template elided (next_block_start stack) (last + 1) >>= λ found_line.
        elim found_line [
          | none ↦ rest
          | some first ↦
              if any (matches pattern) (take (last + 1 - first) (drop first elided))
              then some true
              else rest
        ]

-- _IsType
unfoldable pub is_type : CleansedLines → NestingState → Text → Option Bool
unfolding token_of starts typename_pattern is_type_of_stack
is_type clean_lines s expr =
    if starts types (token_of expr)
    then some true
    else is_type_of_stack clean_lines.elided (typename_pattern (token_of expr)) s.nesting.stack

-- ^(.*[^ ({>]){
unfoldable pub tight_brace : Regex
unfolding none_of
tight_brace = start ▸ group 1 (star dot ▸ none_of " ({>") ▸ one b'{'

-- ^[\s}]*[{.;,)<>\]:]
unfoldable pub initializer_end : Regex
unfolding one_of
initializer_end = start ▸ star (letter (λ c. is_space c || c == b'}')) ▸ one_of "{.;,)<>]:"

-- }else
unfoldable pub tight_else : Regex
unfolding word
tight_else = word "}else"

-- :\s*;\s*$
unfoldable pub empty_statement : Regex
empty_statement = one b':' ▸ star space ▸ one b';' ▸ star space ▸ finish

-- ^\s*;\s*$
unfoldable pub only_semicolon : Regex
only_semicolon = start ▸ star space ▸ one b';' ▸ star space ▸ finish

-- \s+;\s*$
unfoldable pub spaced_semicolon : Regex
spaced_semicolon = plus space ▸ one b';' ▸ star space ▸ finish

-- \bfor\b
unfoldable pub for_word : Regex
unfolding word
for_word = boundary ▸ word "for" ▸ boundary

-- What stands behind the closing brace, with two lines more.
pub trailing_text : CleansedLines → Text × ℕ × Option ℕ → Text
unfolding join
trailing_text clean_lines (endline, endlinenum, endpos) =
    elim endpos [ none ↦ [] | some p ↦ drop p endline ]
    ++ join [] (
        take (min (endlinenum + 3) (clean_lines.num_lines - 1) - (endlinenum + 1))
          (drop (endlinenum + 1) clean_lines.elided))

unfoldable pub brace_space_reports :
    Text → CleansedLines → ℕ → NestingState → Text → Option (List Report)
unfolding match_start close_expression trailing_text starts is_type
brace_space_reports filename clean_lines linenum s line = elim (match_start tight_brace line) [
  | none ↦ some []
  | some m ↦ close_expression clean_lines linenum (length (group_text m 1)) >>= λ r.
      if starts initializer_end (trailing_text clean_lines r)
      then some []
      else is_type clean_lines s (group_text m 1) >>= λ of_type. some (
          when (not of_type)
            (report filename linenum "whitespace/braces" 5 (codes "Missing space before {")))
]

unfoldable pub semicolon_reports : Text → ℕ → Text → List Report
unfolding matches
semicolon_reports filename linenum line =
    if matches empty_statement line
    then report filename linenum "whitespace/semicolon" 5
        (codes "Semicolon defining empty statement. Use {} instead.")
      ∷ []
    else if matches only_semicolon line
    then report filename linenum "whitespace/semicolon" 5 (
        codes "Line contains only semicolon. If this should be an empty statement, use {} instead.")
      ∷ []
    else when (matches spaced_semicolon line && not (matches for_word line)) (
        report filename linenum "whitespace/semicolon" 5 (
          codes
            "Extra space before last semicolon. If this should be an empty statement, use {} instead."))

-- CheckBracesSpacing
unfoldable pub check_braces_spacing : Text → CleansedLines → ℕ → NestingState → Option (List Report)
unfolding brace_space_reports matches semicolon_reports
check_braces_spacing filename clean_lines linenum s =
    get_elem? clean_lines.elided linenum >>= λ line.
    brace_space_reports filename clean_lines linenum s line >>= λ spaces. some (
      spaces
      ++ (when (matches tight_else line)
            (report filename linenum "whitespace/braces" 5 (codes "Missing space before else"))
          ++ semicolon_reports filename linenum line))
