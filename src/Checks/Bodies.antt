-- ===== src/Checks/Bodies.antt =====
-- CheckEmptyBlockBody (build_support/cpplint.py).
use falcon_link.Prelude.{
  ℕ, ◌+◌, ◌-◌, Bool, true, false, not, ◌&&◌, Option, none, some, List, [], ◌∷◌, ◌++◌, map, codes,
  text_eq, starts_with, find, join, Text, ltb, ◌==◌, if◌then◌else◌, get_elem?, take, drop,
}
use falcon_link.Prelude.Options.{◌>>=◌}
use falcon_link.Regex.{
  Regex, star, group, start, finish, ahead, not_ahead, match_start, word, one, space, ◌▸◌, ◌∣◌,
}
use falcon_link.Report.{Report, report}
use falcon_link.Nolint.{matches}
use falcon_link.RawStrings.{group_text}
use falcon_link.CleansedLines.{CleansedLines}
use falcon_link.Comments.{cleanse_comments}
use falcon_link.Expression.{close_expression}
use falcon_link.Checks.{when}

-- \s*(for|while|if)\s*\(
unfoldable pub loop_start : Regex
unfolding word
loop_start = star space ▸ group 1 (word "for" ∣ word "while" ∣ word "if") ▸ star space ▸ one b'('

-- ^\s*\{
unfoldable pub brace_next : Regex
brace_next = start ▸ star space ▸ one b'{'

-- ^(?!\s*$)
unfoldable pub code_next : Regex
code_next = start ▸ not_ahead (star space ▸ finish)

-- ^\s*$
unfoldable pub empty_body : Regex
empty_body = start ▸ star space ▸ finish

-- ^\s*$|^(?=\s*else)
unfoldable pub blank_or_else : Regex
unfolding word
blank_or_else = start ▸ star space ▸ finish ∣ start ▸ ahead (star space ▸ word "else")

-- ^(?=\s*else)
unfoldable pub else_clause : Regex
unfolding word
else_clause = start ▸ ahead (star space ▸ word "else")

-- A condition that a semicolon follows.
unfoldable pub empty_statement_reports : Text → ℕ → Bool → Text → List Report
unfolding starts_with
empty_statement_reports filename end_linenum is_if behind =
    if starts_with behind (codes ";")
    then (if is_if
        then report filename end_linenum "whitespace/empty_conditional_body" 5
            (codes "Empty conditional bodies should use {}")
          ∷ []
        else report filename end_linenum "whitespace/empty_loop_body" 5
            (codes "Empty loop bodies should use {} or continue")
          ∷ [])
    else []

-- The loop up to the line of the opening brace: its number and the fragment with the brace, or none if
-- there are no brackets. The lines are those behind the current one.
unfoldable pub find_opening : ℕ → Text → List Text → Option (ℕ × Text)
unfolding matches
find_opening i fragment [] = if matches brace_next fragment then some (i, fragment) else none
find_opening i fragment (line ∷ lines) =
    let rest = find_opening (i + 1) line lines in
    if matches brace_next fragment
    then some (i, fragment)
    else if matches code_next fragment
    then none
    else rest

-- The loop over what is behind the body: whether it comes to an else.
unfoldable pub else_follows : Text → List Text → Bool
unfolding matches
else_follows fragment [] = matches blank_or_else fragment && matches else_clause fragment
else_follows fragment (line ∷ lines) =
    let rest = else_follows line lines in
    if not (matches blank_or_else fragment)
    then false
    else if matches else_clause fragment
    then true
    else rest

-- The text of the body; `list(text)` gives its letters one by one.
unfoldable pub body_text : CleansedLines → Text → ℕ → ℕ → ℕ → ℕ → Text → Text
unfolding join
body_text clean_lines opening_line opening_linenum opening_pos closing_linenum closing_pos
      closing_line =
    if ltb opening_linenum closing_linenum
    then join (codes "\n") (
        map (λ c. c ∷ []) (drop (opening_pos + 1) opening_line)
        ++ (take (closing_linenum - (opening_linenum + 1))
              (drop (opening_linenum + 1) clean_lines.raw_lines)
            ++ (take (closing_pos - 1) closing_line ∷ [])))
    else drop (opening_pos + 1) (take (closing_pos - 1) opening_line)

-- The body between the braces is empty, with no comments, and no else follows.
unfoldable pub is_empty_body : CleansedLines → Text → ℕ → ℕ → Text × ℕ × Option ℕ → Option Bool
unfolding text_eq cleanse_comments body_text matches else_follows
is_empty_body clean_lines opening_line opening_linenum opening_pos (closing_line, n, none) =
    some false
is_empty_body clean_lines opening_line opening_linenum opening_pos (closing_line, n, some p) =
    get_elem? clean_lines.raw_lines opening_linenum >>= λ raw. some (
      text_eq raw (cleanse_comments raw)
      && matches empty_body
          (body_text clean_lines opening_line opening_linenum opening_pos n p closing_line)
      && not (else_follows (drop p closing_line) (drop (n + 1) clean_lines.elided)))

-- An if with an empty body.
unfoldable pub empty_if_reports : Text → CleansedLines → Text → ℕ → ℕ → Option (List Report)
unfolding find_opening find close_expression is_empty_body
empty_if_reports filename clean_lines end_line end_linenum end_pos =
    elim (find_opening end_linenum (drop end_pos end_line)
      (drop (end_linenum + 1) clean_lines.elided)) [
        | none ↦ some []
        | some (opening_linenum, fragment) ↦
            get_elem? clean_lines.elided opening_linenum >>= λ opening_line.
            find fragment (codes "{") >>= λ i.
            let opening_pos = if opening_linenum == end_linenum then i + end_pos else i in
            close_expression clean_lines opening_linenum opening_pos >>= λ r.
            is_empty_body clean_lines opening_line opening_linenum opening_pos r >>= λ is_empty.
            some (
              when is_empty (
                report filename end_linenum "whitespace/empty_if_body" 4
                  (codes "If statement had no body and no else clause")))
      ]

unfoldable pub condition_end_reports :
    Text → CleansedLines → Bool → Text × ℕ × Option ℕ → Option (List Report)
unfolding empty_statement_reports empty_if_reports
condition_end_reports filename clean_lines is_if (end_line, end_linenum, none) = some []
condition_end_reports filename clean_lines is_if (end_line, end_linenum, some end_pos) =
    (if is_if then empty_if_reports filename clean_lines end_line end_linenum end_pos else some [])
    >>= λ bodies.
        some (empty_statement_reports filename end_linenum is_if (drop end_pos end_line) ++ bodies)

-- CheckEmptyBlockBody
unfoldable pub check_empty_block_body : Text → CleansedLines → ℕ → Option (List Report)
unfolding match_start find close_expression text_eq condition_end_reports
check_empty_block_body filename clean_lines linenum =
    get_elem? clean_lines.elided linenum >>= λ line. elim (match_start loop_start line) [
      | none ↦ some []
      | some m ↦ find line (codes "(") >>= λ p. close_expression clean_lines linenum p >>= λ r.
          condition_end_reports filename clean_lines (text_eq (group_text m 1) (codes "if")) r
    ]
