-- ===== src/Checks/Braces.antt =====
-- CheckBraces (build_support/cpplint.py).
use falcon_link.Prelude.{
  ℕ, ◌+◌, ◌-◌, Bool, true, false, not, ◌&&◌, ◌||◌, Option, none, some, List, [], ◌∷◌, ◌++◌, codes,
  find, find_from, is_space, Text, ltb, ◌==◌, if◌then◌else◌, length, get_elem?, drop,
}
use falcon_link.Prelude.Options.{◌>>=◌}
use falcon_link.Regex.{
  Regex, letter, star, group, start, finish, boundary, Found, search_in, contains, word, one,
  one_of, none_of, space, opt, ◌▸◌, ◌∣◌,
}
use falcon_link.Report.{Report, report}
use falcon_link.Nolint.{matches}
use falcon_link.Nesting.Blocks.{starts}
use falcon_link.CleansedLines.{CleansedLines}
use falcon_link.BlankLines.{get_previous_non_blank_line}
use falcon_link.Expression.{close_expression}
use falcon_link.FileChecks.{get_indent_level}
use falcon_link.Checks.{when}

-- t[i:], where None is -1
abbrev pub slice_from : Text → Option ℕ → Text
slice_from t none = drop (length t - 1) t
slice_from t (some i) = drop i t

-- GetPreviousNonBlankLine(clean_lines, linenum)[0]
unfoldable pub previous_text : CleansedLines → ℕ → Option Text
unfolding get_previous_non_blank_line
previous_text clean_lines linenum =
    get_previous_non_blank_line clean_lines linenum >>= λ found_line.
    some (elim found_line [ none ↦ [] | some (line, number) ↦ line ])

-- \s*{\s*$
unfoldable pub only_opening : Regex
only_opening = star space ▸ one b'{' ▸ star space ▸ finish

-- [,;:}{(]\s*$
unfoldable pub open_ended : Regex
unfolding one_of
open_ended = one_of ",;:}{(" ▸ star space ▸ finish

-- \s*#
unfoldable pub preprocessor_line : Regex
preprocessor_line = star space ▸ one b'#'

-- A line of an opening brace alone; `width` is GetLineWidth.
unfoldable pub opening_reports :
    (Text → ℕ) → ℕ → Text → CleansedLines → ℕ → Text → Option (List Report)
unfolding starts previous_text matches find
opening_reports width line_length filename clean_lines linenum line =
    if starts only_opening line
    then (previous_text clean_lines linenum >>= λ prevline. some (
        when
          (not (matches open_ended prevline)
            && not (starts preprocessor_line prevline)
            && not (
                ltb line_length (width prevline + 2)
                && elim (find prevline (codes "[]")) [ some _ ↦ true | none ↦ false ]))
          (report filename linenum "whitespace/braces" 4
            (codes "{ should almost always be at the end of the previous line"))))
    else some []

-- \s*else\b\s*(?:if\b|\{|$)
unfoldable pub else_line_start : Regex
unfolding word
else_line_start =
    star space ▸ word "else" ▸ boundary ▸ star space ▸ (word "if" ▸ boundary ∣ one b'{' ∣ finish)

-- \s*}\s*$
unfoldable pub only_closing_brace : Regex
only_closing_brace = star space ▸ one b'}' ▸ star space ▸ finish

unfoldable pub else_reports : Text → CleansedLines → ℕ → Text → Option (List Report)
unfolding starts previous_text
else_reports filename clean_lines linenum line =
    if starts else_line_start line
    then (previous_text clean_lines linenum >>= λ prevline. some (
        when (starts only_closing_brace prevline) (
          report filename linenum "whitespace/newline" 4
            (codes "An else should appear on the same line as the preceding }"))))
    else some []

-- else if\s*\(
unfoldable pub else_if : Regex
unfolding word
else_if = word "else if" ▸ star space ▸ one b'('

-- }\s*else if\s*\(
unfoldable pub brace_else_if : Regex
unfolding word
brace_else_if = one b'}' ▸ star space ▸ word "else if" ▸ star space ▸ one b'('

-- }\s*else[^{]*$
unfoldable pub brace_else_end : Regex
unfolding word none_of
brace_else_end = one b'}' ▸ star space ▸ word "else" ▸ star (none_of "{") ▸ finish

-- [^}]*else\s*{
unfoldable pub else_brace : Regex
unfolding word none_of
else_brace = star (none_of "}") ▸ word "else" ▸ star space ▸ one b'{'

abbrev pub one_side : Text → ℕ → Report
one_side filename linenum =
    report filename linenum "readability/braces" 5
      (codes "If an else has a brace on one side, it should have it on both")

-- The parenthesis behind `else if`, if it is not at the beginning of the line.
unfoldable pub else_if_paren : Text → Option ℕ
unfolding find find_from
else_if_paren line = find line (codes "else if") >>= λ start.
    find_from line (codes "(") start >>= λ p. if ltb 0 p then some p else none

-- Braces on both sides of an else.
unfoldable pub both_sides_reports : Text → CleansedLines → ℕ → Text → Option (List Report)
unfolding matches else_if_paren close_expression find starts
both_sides_reports filename clean_lines linenum line =
    if matches else_if line
    then elim (else_if_paren line) [
      | none ↦ some []
      | some p ↦ close_expression clean_lines linenum p >>= λ r.
          let brace_on_right = elim (find (slice_from r.0 r.2) (codes "{")) as (λ o. Bool) [
            | some _ ↦ true
            | none ↦ false
          ] in
          some (
            when (if matches brace_else_if line then not brace_on_right else brace_on_right)
              (one_side filename linenum))
    ]
    else some
        (when (matches brace_else_end line || starts else_brace line) (one_side filename linenum))

-- \belse [^\s{]
unfoldable pub else_code : Regex
unfolding word
else_code = boundary ▸ word "else " ▸ letter (λ c. not (is_space c || c == b'{'))

-- \belse if\b
unfoldable pub else_if_word : Regex
unfolding word
else_if_word = boundary ▸ word "else if" ▸ boundary

-- \s*do [^\s{]
unfoldable pub do_code : Regex
unfolding word
do_code = star space ▸ word "do " ▸ letter (λ c. not (is_space c || c == b'{'))

unfoldable pub clause_reports : Text → ℕ → Text → List Report
unfolding matches starts
clause_reports filename linenum line =
    when (matches else_code line && not (matches else_if_word line)) (
      report filename linenum "whitespace/newline" 4
        (codes "Else clause should never be on same line as else (use 2 lines)"))
    ++ when (starts do_code line) (
        report filename linenum "whitespace/newline" 4
          (codes "do/while clauses should not be on a single line"))

-- \b(if\s*\(|else\b)
unfoldable pub if_or_else : Regex
unfolding word
if_or_else = boundary ▸ group 1 (word "if" ▸ star space ▸ one b'(' ∣ word "else" ▸ boundary)

-- \bif\s*\(
unfoldable pub if_start : Regex
unfolding word
if_start = boundary ▸ word "if" ▸ star space ▸ one b'('

-- \s*{
unfoldable pub opening_next : Regex
opening_next = star space ▸ one b'{'

-- \s*$
unfoldable pub nothing_more : Regex
nothing_more = star space ▸ finish

-- ;[\s}]*(\\?)$
unfoldable pub last_semicolon : Regex
last_semicolon =
    one b';' ▸ star (letter (λ c. is_space c || c == b'}')) ▸ group 1 (opt (one b'\\')) ▸ finish

-- ^[^{};]*\[[^\[\]]*\][^{}]*\{[^{}]*\}\s*\)*[;,]\s*$
unfoldable pub lambda_end : Regex
unfolding one_of none_of
lambda_end =
    start
    ▸ star (none_of "{};")
    ▸ one b'['
    ▸ star (none_of "[]")
    ▸ one b']'
    ▸ star (none_of "{}")
    ▸ one b'{'
    ▸ star (none_of "{}")
    ▸ one b'}'
    ▸ star space
    ▸ star (one b')')
    ▸ one_of ";,"
    ▸ star space
    ▸ finish

-- \s*else\b
unfoldable pub else_next : Regex
unfolding word
else_next = star space ▸ word "else" ▸ boundary

-- m.end()
abbrev pub end_of : Found → ℕ
end_of m = length m.before + length m.hit

-- A brace follows the condition, on its line or on the next one.
unfoldable pub brace_follows : CleansedLines → Text → ℕ → Option ℕ → Bool
unfolding starts
brace_follows clean_lines endline endlinenum endpos =
    starts opening_next (slice_from endline endpos)
    || (starts nothing_more (slice_from endline endpos)
        && elim (get_elem? clean_lines.elided (endlinenum + 1)) [
          | none ↦ false
          | some next_line ↦ starts opening_next next_line
        ])

-- The loop up to the next line with a semicolon, over the lines from a number on.
unfoldable pub semicolon_line : ℕ → Option ℕ → List Text → Option (ℕ × Text)
unfolding contains
semicolon_line i endpos [] = none
semicolon_line i endpos (line ∷ lines) = elim (contains b';' (slice_from line endpos)) [
  | true ↦ some (i, line)
  | false ↦ semicolon_line (i + 1) (some 0) lines
]

abbrev pub many_statements : Text → ℕ → Report
many_statements filename linenum =
    report filename linenum "readability/braces" 4
      (codes "If/else bodies with multiple statements require braces")

-- What follows the line of the semicolon.
unfoldable pub next_line_reports : Text → ℕ → Bool → ℕ → Text → List Report
unfolding get_indent_level starts
next_line_reports filename linenum is_if if_indent next_line =
    let next_indent = get_indent_level next_line in
    if is_if && starts else_next next_line && not (next_indent == if_indent)
    then report filename linenum "readability/braces" 4 (
        codes
          "Else clause should be indented at the same level as if. Ambiguous nested if/else chains require braces.")
      ∷ []
    else when (ltb if_indent next_indent) (many_statements filename linenum)

-- The line of the semicolon: nothing but closing braces should follow it.
unfoldable pub body_reports : Text → CleansedLines → ℕ → Bool → ℕ → Option (ℕ × Text) → List Report
unfolding find starts next_line_reports
body_reports filename clean_lines linenum is_if if_indent none = []
body_reports filename clean_lines linenum is_if if_indent (some (endlinenum, endline)) =
    if not (starts last_semicolon (slice_from endline (find endline (codes ";"))))
    then when (not (starts lambda_end endline)) (many_statements filename linenum)
    else elim (get_elem? clean_lines.elided (endlinenum + 1)) [
      | none ↦ []
      | some next_line ↦ next_line_reports filename linenum is_if if_indent next_line
    ]

unfoldable pub condition_reports :
    Text → CleansedLines → ℕ → Bool → ℕ → Text × ℕ × Option ℕ → List Report
unfolding brace_follows semicolon_line body_reports
condition_reports filename clean_lines linenum is_if if_indent (endline, endlinenum, endpos) =
    if brace_follows clean_lines endline endlinenum endpos
    then []
    else body_reports filename clean_lines linenum is_if if_indent
        (semicolon_line endlinenum endpos (drop endlinenum clean_lines.elided))

-- Bodies of an if or else with no braces.
unfoldable pub body_without_braces : Text → CleansedLines → ℕ → Text → Option (List Report)
unfolding search_in starts get_indent_level close_expression condition_reports
body_without_braces filename clean_lines linenum line = elim (search_in if_or_else line) [
  | none ↦ some []
  | some m ↦ if starts preprocessor_line line then some [] else elim (search_in if_start line) [
    | none ↦ some (
        condition_reports filename clean_lines linenum false (get_indent_level line)
          (line, linenum, some (end_of m)))
    | some i ↦ close_expression clean_lines linenum (end_of i - 1) >>= λ r.
        some (condition_reports filename clean_lines linenum true (get_indent_level line) r)
  ]
]

-- CheckBraces, with the value of _line_length
unfoldable pub check_braces : (Text → ℕ) → ℕ → Text → CleansedLines → ℕ → Option (List Report)
unfolding opening_reports else_reports both_sides_reports clause_reports body_without_braces
check_braces width line_length filename clean_lines linenum =
    get_elem? clean_lines.elided linenum >>= λ line.
    opening_reports width line_length filename clean_lines linenum line >>= λ opening.
    else_reports filename clean_lines linenum line >>= λ else_line.
    both_sides_reports filename clean_lines linenum line >>= λ sides.
    body_without_braces filename clean_lines linenum line >>= λ bodies.
    some (opening ++ (else_line ++ (sides ++ (clause_reports filename linenum line ++ bodies))))
