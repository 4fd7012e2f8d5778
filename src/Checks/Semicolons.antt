-- ===== src/Checks/Semicolons.antt =====
-- CheckTrailingSemicolon (build_support/cpplint.py).
use falcon_link.Prelude.{
  ℕ, zero, suc, ◌-◌, Bool, false, not, ◌&&◌, ◌||◌, Option, none, some, List, [], ◌∷◌, ◌++◌, codes,
  Text, ltb, leb, ◌==◌, if◌then◌else◌, length, get_elem?, take, drop,
}
use falcon_link.Prelude.Options.{◌>>=◌}
use falcon_link.Regex.{
  Regex, letter, star, group, start, finish, boundary, match_start, search_in, word, one, one_of,
  dot, space, plus, ◌▸◌, ◌∣◌,
}
use falcon_link.Report.{report}
use falcon_link.Nolint.{matches}
use falcon_link.Nesting.Blocks.{starts}
use falcon_link.RawStrings.{group_text}
use falcon_link.CleansedLines.{CleansedLines}
use falcon_link.Nolint.{Suppressions}
use falcon_link.Expression.{close_expression, reverse_close_expression}
use falcon_link.HeaderGuard.Checks.{Made, parse_then}
use falcon_link.Dict.{member, text_keys}
use falcon_link.Checks.Braces.{previous_text}
use falcon_link.Checks.Spacing.{from_last}

-- ^(.*\)\s*)\{
unfoldable pub paren_brace : Regex
paren_brace = start ▸ group 1 (star dot ▸ one b')' ▸ star space) ▸ one b'{'

-- \b([A-Z_][A-Z0-9_]*)\s*$
unfoldable pub macro_name : Regex
macro_name =
    boundary
    ▸ group 1 (
        letter (λ c. (leb b'A' c && leb c b'Z') || c == b'_')
        ▸ star
            (letter (λ c. (leb b'A' c && leb c b'Z') || (leb b'0' c && leb c b'9') || c == b'_')))
    ▸ star space
    ▸ finish

-- ^(.*\])\s*$
unfoldable pub bracket_end : Regex
bracket_end = start ▸ group 1 (star dot ▸ one b']') ▸ star space ▸ finish

-- \boperator\s*\[\s*\]
unfoldable pub operator_brackets : Regex
unfolding word
operator_brackets = boundary ▸ word "operator" ▸ star space ▸ one b'[' ▸ star space ▸ one b']'

-- \b(?:struct|union)\s+alignas\s*$
unfoldable pub alignas_end : Regex
unfolding word
alignas_end =
    boundary ▸ (word "struct" ∣ word "union") ▸ plus space ▸ word "alignas" ▸ star space ▸ finish

-- \bdecltype$
unfoldable pub decltype_before : Regex
unfolding word
decltype_before = boundary ▸ word "decltype" ▸ finish

-- \s+=\s*$
unfoldable pub assigned : Regex
assigned = plus space ▸ one b'=' ▸ star space ▸ finish

-- \]\s*$
unfoldable pub lambda_line : Regex
lambda_line = one b']' ▸ star space ▸ finish

-- ^(.*(?:else|\)\s*const)\s*)\{
unfoldable pub else_or_const : Regex
unfolding word
else_or_const =
    start
    ▸ group 1 (star dot ▸ (word "else" ∣ one b')' ▸ star space ▸ word "const") ▸ star space)
    ▸ one b'{'

-- [;{}]\s*$
unfoldable pub statement_end : Regex
unfolding one_of
statement_end = one_of ";{}" ▸ star space ▸ finish

-- ^(\s*)\{
unfoldable pub leading_brace : Regex
leading_brace = start ▸ group 1 (star space) ▸ one b'{'

-- ^\s*;
unfoldable pub semicolon_next : Regex
semicolon_next = start ▸ star space ▸ one b';'

abbrev pub safe_macros : List Text
safe_macros =
    codes "TEST"
    ∷ codes "TEST_F"
    ∷ codes "MATCHER"
    ∷ codes "MATCHER_P"
    ∷ codes "TYPED_TEST"
    ∷ codes "EXCLUSIVE_LOCKS_REQUIRED"
    ∷ codes "SHARED_LOCKS_REQUIRED"
    ∷ codes "LOCKS_EXCLUDED"
    ∷ codes "INTERFACE_DEF"
    ∷ []

-- What stands before the opening parenthesis may need the semicolon.
unfoldable pub is_exempt : Text → Bool
unfolding search_in match_start member matches
is_exempt line_prefix =
    elim (search_in macro_name line_prefix) [
      | none ↦ false
      | some m ↦ not (member (group_text m 1) safe_macros)
    ]
    || elim (match_start bracket_end line_prefix) [
      | none ↦ false
      | some m ↦ not (matches operator_brackets (group_text m 1))
    ]
    || matches alignas_end line_prefix
    || matches decltype_before line_prefix
    || matches assigned line_prefix

-- A lambda expression over several lines.
unfoldable pub is_lambda : CleansedLines → ℕ → Option Bool
unfolding matches
is_lambda clean_lines opening_line =
    if ltb 1 opening_line
    then (get_elem? clean_lines.elided (opening_line - 1) >>= λ line.
        some (matches lambda_line line))
    else some false

-- The letters before the brace behind a closed parenthesis, unless the case is exempt.
unfoldable pub behind_parenthesis : CleansedLines → ℕ → Text → Option (Option ℕ)
unfolding from_last reverse_close_expression is_exempt is_lambda
behind_parenthesis clean_lines linenum prefix = from_last b')' prefix >>= λ tail.
    reverse_close_expression clean_lines linenum (length prefix - length tail) >>= λ r.
    if elim r.2 [ none ↦ false | some pos ↦ is_exempt (take pos r.0) ]
    then some none
    else is_lambda clean_lines r.1 >>= λ lambda.
        some (if lambda then none else some (length prefix))

-- The letters before the brace behind another statement.
unfoldable pub behind_statement : CleansedLines → ℕ → Text → Option (Option ℕ)
unfolding previous_text matches match_start
behind_statement clean_lines linenum line = previous_text clean_lines linenum >>= λ prevline. some (
    if matches statement_end prevline
    then elim (match_start leading_brace line) as (λ o. Option ℕ) [
      | none ↦ none
      | some m ↦ some (length (group_text m 1))
    ]
    else none)

-- The position of the opening brace of a block that wants no semicolon, if there is one.
unfoldable pub block_brace : CleansedLines → ℕ → Text → Option (Option ℕ)
unfolding match_start behind_parenthesis behind_statement
block_brace clean_lines linenum line = elim (match_start paren_brace line) [
  | some m ↦ behind_parenthesis clean_lines linenum (group_text m 1)
  | none ↦ elim (match_start else_or_const line) [
    | some m ↦ some (some (length (group_text m 1)))
    | none ↦ behind_statement clean_lines linenum line
  ]
]

-- The semicolon behind the closing brace. The NOLINT comments of its line and of the line before are
-- read first. Line 0 of a file is a marker with no brace, and is left out.
unfoldable pub semicolon_found :
    Text → CleansedLines → Text × ℕ × Option ℕ → Suppressions → Option Made
unfolding starts parse_then
semicolon_found filename clean_lines (endline, endlinenum, none) s = some (s, [])
semicolon_found filename clean_lines (endline, zero, some endpos) s =
    if starts semicolon_next (drop endpos endline) then none else some (s, [])
semicolon_found filename clean_lines (endline, suc before, some endpos) s =
    if starts semicolon_next (drop endpos endline)
    then some (
        let (t, first) = parse_then filename clean_lines.raw_lines before [] s in
        let (u, second) =
          parse_then filename clean_lines.raw_lines (suc before)
            (report filename (suc before) "readability/braces" 4
                (codes "You don't need a ; after a }")
              ∷ [])
            t in
        (u, first ++ second))
    else some (s, [])

-- CheckTrailingSemicolon
unfoldable pub check_trailing_semicolon : Text → CleansedLines → ℕ → Suppressions → Option Made
unfolding block_brace close_expression semicolon_found
check_trailing_semicolon filename clean_lines linenum s =
    get_elem? clean_lines.elided linenum >>= λ line.
    block_brace clean_lines linenum line >>= λ brace. elim brace [
      | none ↦ some (s, [])
      | some p ↦
          close_expression clean_lines linenum p >>= λ r. semicolon_found filename clean_lines r s
    ]
