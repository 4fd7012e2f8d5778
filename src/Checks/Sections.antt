-- ===== src/Checks/Sections.antt =====
-- IsDecltype and CheckSectionSpacing (build_support/cpplint.py).
use falcon_link.Prelude.{
  ℕ, ◌+◌, ◌-◌, Bool, true, false, not, ◌&&◌, ◌||◌, Option, none, some, List, [], ◌∷◌, ◌++◌, codes,
  Text, ltb, leb, if◌then◌else◌, get_elem?, take, drop,
}
use falcon_link.Prelude.Options.{◌>>=◌}
use falcon_link.Regex.{
  Regex, star, group, finish, boundary, Found, match_start, word, one, space, ◌▸◌, ◌∣◌,
}
use falcon_link.Report.{Report, report}
use falcon_link.Nolint.{matches}
use falcon_link.RawStrings.{group_text}
use falcon_link.CleansedLines.{CleansedLines}
use falcon_link.BlankLines.{is_blank_line}
use falcon_link.Expression.{reverse_close_expression}
use falcon_link.Nesting.{Block, ClassInfo}
use falcon_link.Checks.{when}

-- \bdecltype\s*$
unfoldable pub decltype_end : Regex
unfolding word
decltype_end = boundary ▸ word "decltype" ▸ star space ▸ finish

-- IsDecltype
unfoldable pub is_decltype : CleansedLines → ℕ → ℕ → Option Bool
unfolding reverse_close_expression matches
is_decltype clean_lines linenum column =
    reverse_close_expression clean_lines linenum column >>= λ r.
    some (elim r.2 [ none ↦ false | some start_col ↦ matches decltype_end (take start_col r.0) ])

-- \s*(public|protected|private):
unfoldable pub section_line : Regex
unfolding word
section_line = star space ▸ group 1 (word "public" ∣ word "protected" ∣ word "private") ▸ one b':'

-- \b(class|struct)\b
unfoldable pub class_word : Regex
unfolding word
class_word = boundary ▸ group 1 (word "class" ∣ word "struct") ▸ boundary

-- \\$
unfoldable pub line_continued : Regex
line_continued = one b'\\' ▸ finish

-- \{\s*$
unfoldable pub brace_at_end : Regex
brace_at_end = one b'{' ▸ star space ▸ finish

-- The loop that looks for the head of the class, over the lines from a number on.
unfoldable pub end_class_head : ℕ → ℕ → List Text → ℕ
unfolding matches
end_class_head default i [] = default
end_class_head default i (line ∷ lines) = elim (matches brace_at_end line) [
  | true ↦ i
  | false ↦ end_class_head default (i + 1) lines
]

unfoldable pub section_reports : Text → CleansedLines → ℕ → ℕ → Found → Option (List Report)
unfolding is_blank_line matches end_class_head
section_reports filename clean_lines starting_linenum linenum matched =
    get_elem? clean_lines.lines (linenum - 1) >>= λ prev_line.
    let between = take (linenum - starting_linenum) (drop starting_linenum clean_lines.lines) in
    some (
      when
        (not (is_blank_line prev_line)
          && not (matches class_word prev_line)
          && not (matches line_continued prev_line)
          && ltb (end_class_head starting_linenum starting_linenum between + 1) linenum)
        (report filename linenum "whitespace/blank_line" 3
          (codes "\"" ++ (group_text matched 1 ++ codes ":\" should be preceded by a blank line"))))

-- CheckSectionSpacing, of the innermost class
unfoldable pub check_section_spacing :
    Text → CleansedLines → Block → ClassInfo → ℕ → Option (List Report)
unfolding match_start section_reports
check_section_spacing filename clean_lines b c linenum =
    if leb c.last_line (b.starting_linenum + 24) || leb linenum b.starting_linenum
    then some []
    else get_elem? clean_lines.lines linenum >>= λ line. elim (match_start section_line line) [
      | none ↦ some []
      | some m ↦ section_reports filename clean_lines b.starting_linenum linenum m
    ]
