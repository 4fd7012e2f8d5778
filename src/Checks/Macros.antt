-- ===== src/Checks/Macros.antt =====
-- FindCheckMacro and CheckCheck (build_support/cpplint.py).
pub mod Returns
use falcon_link.Prelude.{
  ℕ, ◌+◌, ◌-◌, ◌*◌, ◌/◌, ◌%◌, ◌^◌, ◌≤◌, ◌<◌, ◌≡◌, ◌∙◌, ◌≡⟨◌⟩◌, ◌∎, ◌≢◌, ◌↔◌, ◌⊎◌, true, false, not,
  ◌&&◌, ◌||◌, Option, none, some, List, [], ◌∷◌, ◌++◌, codes, text_eq, find, replace, strip, join,
  Text, leb, ◌==◌, if◌then◌else◌, length, get_elem?, take, drop,
}
use falcon_link.Prelude.Options.{◌>>=◌}
use falcon_link.Regex.{
  Regex, empty, letter, seq, alt, star, lazy, group, start, finish, boundary, ahead, not_ahead,
  Found, match_start, search_in, group_of, remove_all, contains, word_of, word, one, one_of,
  none_of, dot, space, non_space, word_letter, digit, plus, opt, ◌▸◌, ◌∣◌, is_word, is_digit,
}
use falcon_link.Report.{Report, report}
use falcon_link.Nolint.{matches}
use falcon_link.Nesting.Blocks.{starts}
use falcon_link.RawStrings.{group_text}
use falcon_link.CleansedLines.{CleansedLines}
use falcon_link.Regex.Replace.{find_all}
use falcon_link.Expression.{
  Scan, at_index, unclosed, pending, find_end_of_expression_in_line, close_expression,
}
use falcon_link.Checks.{when}
use falcon_link.Checks.Operands.{Parts, unfit, parts, parse_expression}

abbrev pub check_macros : List Text
check_macros =
    codes "DCHECK"
    ∷ codes "CHECK"
    ∷ codes "EXPECT_TRUE"
    ∷ codes "ASSERT_TRUE"
    ∷ codes "EXPECT_FALSE"
    ∷ codes "ASSERT_FALSE"
    ∷ []

-- The first of the pairs with this key.
unfoldable pub lookup_text : Text → List (Text × Text) → Text
unfolding text_eq
lookup_text key [] = []
lookup_text key ((k, v) ∷ pairs) = if text_eq k key then v else lookup_text key pairs

abbrev pub operator_names : List (Text × Text)
operator_names =
    (codes "==", codes "EQ")
    ∷ (codes "!=", codes "NE")
    ∷ (codes ">=", codes "GE")
    ∷ (codes ">", codes "GT")
    ∷ (codes "<=", codes "LE")
    ∷ (codes "<", codes "LT")
    ∷ []

abbrev pub inverse_names : List (Text × Text)
inverse_names =
    (codes "==", codes "NE")
    ∷ (codes "!=", codes "EQ")
    ∷ (codes ">=", codes "LT")
    ∷ (codes ">", codes "LE")
    ∷ (codes "<=", codes "GT")
    ∷ (codes "<", codes "GE")
    ∷ []

-- _CHECK_REPLACEMENT[check_macro][operator]
unfoldable pub check_replacement : Text → Text → Text
unfolding text_eq lookup_text
check_replacement macro op =
    if text_eq macro (codes "DCHECK")
    then codes "DCHECK_" ++ lookup_text op operator_names
    else if text_eq macro (codes "CHECK")
    then codes "CHECK_" ++ lookup_text op operator_names
    else if text_eq macro (codes "EXPECT_TRUE")
    then codes "EXPECT_" ++ lookup_text op operator_names
    else if text_eq macro (codes "ASSERT_TRUE")
    then codes "ASSERT_" ++ lookup_text op operator_names
    else if text_eq macro (codes "EXPECT_FALSE")
    then codes "EXPECT_" ++ lookup_text op inverse_names
    else codes "ASSERT_" ++ lookup_text op inverse_names

-- ^(.*\b macro \s*)\(
unfoldable pub macro_call : Text → Regex
unfolding word_of
macro_call macro = start ▸ group 1 (star dot ▸ boundary ▸ word_of macro ▸ star space) ▸ one b'('

-- FindCheckMacro, over the macros that are left
unfoldable pub find_check_macro : List Text → Text → Option (Text × ℕ)
unfolding find match_start macro_call
find_check_macro [] line = none
find_check_macro (macro ∷ macros) line =
    let rest = find_check_macro macros line in
    elim (find line macro) [
      | none ↦ rest
      | some _ ↦ elim (match_start (macro_call macro) line) [
        | none ↦ rest
        | some m ↦ some (macro, length (group_text m 1))
      ]
    ]

-- \s*;
unfoldable pub semicolon_behind : Regex
semicolon_behind = star space ▸ one b';'

-- ^([-+]?(\d+|0[xX][0-9a-fA-F]+)[lLuU]{0,3}|".*"|\'.*\')$
unfoldable pub constant : Regex
unfolding one_of
constant =
    start
    ▸ group 1 (
        opt (one_of "-+")
          ▸ group 2 (
              plus digit
              ∣ one b'0'
                ▸ one_of "xX"
                ▸ plus (
                    letter (λ c.
                      (leb b'0' c && leb c b'9')
                      || (leb b'a' c && leb c b'f')
                      || (leb b'A' c && leb c b'F'))))
          ▸ opt (one_of "lLuU" ▸ opt (one_of "lLuU" ▸ opt (one_of "lLuU")))
        ∣ one b'"' ▸ star dot ▸ one b'"'
        ∣ one b'\'' ▸ star dot ▸ one b'\'')
    ▸ finish

-- The report for the parts of an expression.
unfoldable pub replacement_reports : Text → ℕ → Text → Parts → List Report
unfolding text_eq find strip starts check_replacement
replacement_reports filename linenum macro unfit = []
replacement_reports filename linenum macro (parts lhs none rhs) = []
replacement_reports filename linenum macro (parts lhs (some op) rhs) =
    when
      (not (text_eq lhs [])
        && not (text_eq rhs [])
        && elim (find rhs (codes "&&")) [ none ↦ true | some _ ↦ false ]
        && elim (find rhs (codes "||")) [ none ↦ true | some _ ↦ false ]
        && (starts constant (strip lhs) || starts constant (strip rhs)))
      (report filename linenum "readability/check" 2 (
        codes "Consider using "
        ++ (check_replacement macro op
            ++ (codes " instead of " ++ (macro ++ (codes "(a " ++ (op ++ codes " b)")))))))

-- The expression between the parentheses, over one line or several.
unfoldable pub checked_expression : CleansedLines → Text → ℕ → ℕ → Text → ℕ → ℕ → Text
unfolding join
checked_expression clean_lines line linenum start_pos last_line end_line end_pos =
    if linenum == end_line
    then drop (start_pos + 1) (take (end_pos - 1) line)
    else drop (start_pos + 1) line
      ++ (join [] (take (end_line - (linenum + 1)) (drop (linenum + 1) clean_lines.elided))
          ++ take (end_pos - 1) last_line)

unfoldable pub macro_reports :
    Text → CleansedLines → ℕ → Text → Text → ℕ → Text × ℕ × Option ℕ → Option (List Report)
unfolding starts checked_expression parse_expression replacement_reports
macro_reports filename clean_lines linenum line macro start_pos (last_line, end_line, none) =
    some []
macro_reports filename clean_lines linenum line macro start_pos
      (last_line, end_line, some end_pos) =
    if not (starts semicolon_behind (drop end_pos last_line))
    then some []
    else let expression =
        checked_expression clean_lines line linenum start_pos last_line end_line end_pos in
      parse_expression (length expression + 1) [] expression >>= λ found_parts.
      some (replacement_reports filename linenum macro found_parts)

-- What CheckCheck does with the macro and the parenthesis that it finds.
unfoldable pub found_macro_reports :
    Text → CleansedLines → ℕ → Text → Option (Text × ℕ) → Option (List Report)
unfolding close_expression macro_reports
found_macro_reports filename clean_lines linenum line none = some []
found_macro_reports filename clean_lines linenum line (some (macro, start_pos)) =
    close_expression clean_lines linenum start_pos >>= λ r.
    macro_reports filename clean_lines linenum line macro start_pos r

-- CheckCheck
unfoldable pub check_check : Text → CleansedLines → ℕ → Option (List Report)
unfolding find_check_macro found_macro_reports
check_check filename clean_lines linenum = get_elem? clean_lines.elided linenum >>= λ line.
    found_macro_reports filename clean_lines linenum line (find_check_macro check_macros line)
