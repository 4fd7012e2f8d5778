-- ===== src/Checks/Parentheses.antt =====
-- CheckParenthesisSpacing and CheckCommaSpacing (build_support/cpplint.py).
use falcon_link.Prelude.{
  ℕ, ◌+◌, false, not, ◌&&◌, ◌||◌, Option, none, some, List, [], ◌∷◌, ◌++◌, codes, text_eq, is_space,
  Text, ◌==◌, if◌then◌else◌, length, get_elem?,
}
use falcon_link.Prelude.Options.{◌>>=◌}
use falcon_link.Regex.{
  Regex, letter, star, group, finish, boundary, Found, search_in, word, one, one_of, none_of, dot,
  space, plus, ◌▸◌, ◌∣◌,
}
use falcon_link.Report.{Report, report}
use falcon_link.Nolint.{matches}
use falcon_link.RawStrings.{group_text}
use falcon_link.CleansedLines.{CleansedLines}
use falcon_link.Regex.Replace.{replace_all}
use falcon_link.Checks.{when}

--  (if\(|for\(|while\(|switch\()
unfoldable pub word_paren : Regex
unfolding word
word_paren = one b' ' ▸ group 1 (word "if(" ∣ word "for(" ∣ word "while(" ∣ word "switch(")

-- \b(if|for|while|switch)\s*\(([ ]*)(.).*[^ ]+([ ]*)\)\s*{\s*$
unfoldable pub control_spaces : Regex
unfolding word one_of none_of
control_spaces =
    boundary
    ▸ group 1 (word "if" ∣ word "for" ∣ word "while" ∣ word "switch")
    ▸ star space
    ▸ one b'('
    ▸ group 2 (star (one_of " "))
    ▸ group 3 dot
    ▸ star dot
    ▸ plus (none_of " ")
    ▸ group 4 (star (one_of " "))
    ▸ one b')'
    ▸ star space
    ▸ one b'{'
    ▸ star space
    ▸ finish

-- \bfor\s*\(.*; \)
unfoldable pub for_end : Regex
unfolding word
for_end = boundary ▸ word "for" ▸ star space ▸ one b'(' ▸ star dot ▸ word "; )"

-- The spaces inside the parentheses of a control structure, on its two sides.
unfoldable pub inside_reports : Text → ℕ → Text → Found → List Report
unfolding text_eq matches
inside_reports filename linenum line m =
    let before = length (group_text m 2) in
    let behind = length (group_text m 4) in
    when
      (not (before == behind)
        && not (
            (text_eq (group_text m 3) (codes ";") && before == 1 + behind)
            || (before == 0 && matches for_end line)))
      (report filename linenum "whitespace/parens" 5
        (codes "Mismatching spaces inside () in " ++ group_text m 1))
    ++ when (not (before == 0 || before == 1)) (
        report filename linenum "whitespace/parens" 5
          (codes "Should have zero or one spaces inside ( and ) in " ++ group_text m 1))

-- CheckParenthesisSpacing
unfoldable pub check_parenthesis_spacing : Text → CleansedLines → ℕ → Option (List Report)
unfolding search_in inside_reports
check_parenthesis_spacing filename clean_lines linenum =
    get_elem? clean_lines.elided linenum >>= λ line. some (
      elim (search_in word_paren line) [
        | none ↦ []
        | some m ↦
            report filename linenum "whitespace/parens" 5
              (codes "Missing space before ( in " ++ group_text m 1)
            ∷ []
      ]
      ++ elim (search_in control_spaces line) [
        | none ↦ []
        | some m ↦ inside_reports filename linenum line m
      ])

-- ,[^,\s]
unfoldable pub tight_comma : Regex
tight_comma = one b',' ▸ letter (λ c. not (is_space c || c == b','))

-- \boperator\s*,\s*\(
unfoldable pub operator_comma : Regex
unfolding word
operator_comma = boundary ▸ word "operator" ▸ star space ▸ one b',' ▸ star space ▸ one b'('

-- ;[^\s};\\)/]
unfoldable pub tight_semicolon : Regex
tight_semicolon =
    one b';'
    ▸ letter
        (λ c. not (is_space c || c == b'}' || c == b';' || c == b'\\' || c == b')' || c == b'/'))

-- CheckCommaSpacing
unfoldable pub check_comma_spacing : Text → CleansedLines → ℕ → Option (List Report)
unfolding matches replace_all
check_comma_spacing filename clean_lines linenum = get_elem? clean_lines.elided linenum >>= λ line.
    (if matches tight_comma (replace_all operator_comma (codes "F(") line)
      then (get_elem? clean_lines.lines_without_raw_strings linenum >>= λ raw.
          some (matches tight_comma raw))
      else some false)
    >>= λ missing. some (
        when missing (report filename linenum "whitespace/comma" 3 (codes "Missing space after ,"))
        ++ when (matches tight_semicolon line)
            (report filename linenum "whitespace/semicolon" 3 (codes "Missing space after ;")))
