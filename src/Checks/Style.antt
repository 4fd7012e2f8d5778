-- ===== src/Checks/Style.antt =====
-- CheckStyle (build_support/cpplint.py), which calls the other checks of spacing and braces.
use falcon_link.Prelude.{
  ℕ, suc, ◌-◌, Bool, true, false, not, ◌&&◌, ◌||◌, Option, none, some, List, [], ◌∷◌, ◌++◌, map,
  codes, text_eq, starts_with, find, count, is_space, decimal, Text, ltb, leb, ◌==◌, if◌then◌else◌,
  get_elem?, get_or,
}
use falcon_link.Prelude.Options.{◌>>=◌}
use falcon_link.Regex.{
  Regex, letter, star, group, start, finish, word, one, one_of, none_of, dot, space, non_space,
  word_letter, plus, opt, ◌▸◌, ◌∣◌,
}
use falcon_link.Report.{Report, report}
use falcon_link.Nolint.{matches}
use falcon_link.Nesting.Blocks.{starts}
use falcon_link.CleansedLines.{CleansedLines}
use falcon_link.Nolint.{Suppressions}
use falcon_link.Extensions.{Extensions, is_header_extension}
use falcon_link.HeaderGuard.{FileNames, get_header_guard_cpp_variable}
use falcon_link.HeaderGuard.Checks.{Made}
use falcon_link.Nesting.{NestingState, innermost_class}
use falcon_link.Checks.{when}
use falcon_link.Checks.Width.{Unicode, get_line_width}
use falcon_link.Checks.Braces.{check_braces, previous_text}
use falcon_link.Checks.Semicolons.{check_trailing_semicolon}
use falcon_link.Checks.Bodies.{check_empty_block_body}
use falcon_link.Checks.Spacing.{check_spacing}
use falcon_link.Checks.Operators.{check_operator_spacing}
use falcon_link.Checks.Parentheses.{check_parenthesis_spacing, check_comma_spacing}
use falcon_link.Checks.Initializers.{check_braces_spacing}
use falcon_link.Checks.Calls.{check_spacing_for_function_call}
use falcon_link.Checks.Macros.{check_check}
use falcon_link.Checks.Tokens.{check_alt_tokens}
use falcon_link.Checks.Sections.{check_section_spacing}

-- t.find(p) != -1
pub has : Text → Text → Bool
unfolding find
has t p = elim (find t p) [ none ↦ false | some _ ↦ true ]

-- \s*\w+\s*:\s*\\?$
unfoldable pub scope_or_label : Regex
scope_or_label =
    star space ▸ plus word_letter ▸ star space ▸ one b':' ▸ star space ▸ opt (one b'\\') ▸ finish

-- [",=><] *$
unfoldable pub open_line_end : Regex
unfolding one_of
open_line_end = one_of "\",=><" ▸ star (one b' ') ▸ finish

-- ^\s*""
unfoldable pub empty_string_start : Regex
unfolding word
empty_string_start = start ▸ star space ▸ word "\"\""

-- The spaces at the beginning of the line.
unfoldable pub initial_spaces : Text → ℕ
initial_spaces [] = 0
initial_spaces (c ∷ line) = if c == b' ' then suc (initial_spaces line) else 0

-- line and line[-1].isspace()
unfoldable pub ends_in_space : Text → Bool
unfolding is_space
ends_in_space [] = false
ends_in_space (c ∷ []) = is_space c
ends_in_space (c ∷ d ∷ line) = ends_in_space (d ∷ line)

-- Tabs, the spaces at the beginning of the line and those at its end; `raw` is the raw line.
unfoldable pub space_reports : Text → ℕ → Text → Text → Text → Text → List Report
unfolding has matches initial_spaces starts text_eq ends_in_space
space_reports filename linenum raw line prev cleansed_line =
    when (has line (codes "\t"))
      (report filename linenum "whitespace/tab" 1 (codes "Tab found; better to use spaces"))
    ++ (when
          (not (matches open_line_end prev)
            && (initial_spaces line == 1 || initial_spaces line == 3)
            && not (starts scope_or_label cleansed_line)
            && not (not (text_eq raw line) && starts empty_string_start line))
          (report filename linenum "whitespace/indent" 3
            (codes "Weird number of spaces at line-start.  Are you using a 2-space indent?"))
        ++ when (ends_in_space line) (
            report filename linenum "whitespace/end_of_line" 4
              (codes "Line ends in whitespace.  Consider deleting these extra spaces.")))

-- ^\s*//.*http(s?)://\S*$
unfoldable pub url_line : Regex
unfolding word
url_line =
    start
    ▸ star space
    ▸ word "//"
    ▸ star dot
    ▸ word "http"
    ▸ group 1 (opt (one b's'))
    ▸ word "://"
    ▸ star non_space
    ▸ finish

-- ^\s*//\s*[^\s]*$
unfoldable pub word_comment : Regex
unfolding word
word_comment =
    start ▸ star space ▸ word "//" ▸ star space ▸ star (letter (λ c. not (is_space c))) ▸ finish

-- ^// \$Id:.*#[0-9]+ \$$
unfoldable pub id_line : Regex
unfolding word
id_line =
    start
    ▸ word "// $Id:"
    ▸ star dot
    ▸ one b'#'
    ▸ plus (letter (λ c. (leb b'0' c && leb c b'9')))
    ▸ word " $"
    ▸ finish

-- ^\s*/// [@\\](copydoc|copydetails|copybrief) .*$
unfoldable pub copydoc_line : Regex
unfolding word one_of
copydoc_line =
    start
    ▸ star space
    ▸ word "/// "
    ▸ one_of "@\\"
    ▸ group 1 (word "copydoc" ∣ word "copydetails" ∣ word "copybrief")
    ▸ one b' '
    ▸ star dot
    ▸ finish

-- A line of the header guard with this name.
unfoldable pub of_guard : Text → Text → Bool
unfolding starts_with
of_guard line cppvar =
    starts_with line (codes "#ifndef " ++ cppvar)
    || starts_with line (codes "#define " ++ cppvar)
    || starts_with line (codes "#endif  // " ++ cppvar)

-- Lines that may be long.
unfoldable pub may_be_long : Text → Bool → Bool
unfolding starts_with starts
may_be_long line is_header_guard =
    starts_with line (codes "#include")
    || is_header_guard
    || starts url_line line
    || starts word_comment line
    || starts id_line line
    || starts copydoc_line line

-- ^[^{};]*\[[^\[\]]*\][^{}]*\{[^{}\n\r]*\}
unfoldable pub one_line_lambda : Regex
unfolding none_of
one_line_lambda =
    start
    ▸ star (none_of "{};")
    ▸ one b'['
    ▸ star (none_of "[]")
    ▸ one b']'
    ▸ star (none_of "{}")
    ▸ one b'{'
    ▸ star (none_of "{}\n\r")
    ▸ one b'}'

-- More than one command on the line; `prevline` is the previous line that is not blank.
unfoldable pub has_many_commands : Text → Text → Text → Bool
unfolding count starts has
has_many_commands line cleansed_line prevline =
    ltb 1 (count cleansed_line (codes ";"))
    && not (starts one_line_lambda line)
    && not (has cleansed_line (codes "for"))
    && (not (has prevline (codes "for")) || has prevline (codes ";"))
    && not (
        (has cleansed_line (codes "case ") || has cleansed_line (codes "default:"))
        && has cleansed_line (codes "break;"))

module _ (u : Unicode) (fs : FileNames) (root : Option Text) (g : Extensions) (line_length : ℕ)
    (filename file_extension : Text) (clean_lines : CleansedLines) (linenum : ℕ) where
  -- The line is one of the header guard.
  unfoldable pub is_header_guard : Text → Option Bool
  unfolding is_header_extension get_header_guard_cpp_variable of_guard
  is_header_guard line =
      if is_header_extension file_extension g
      then (get_header_guard_cpp_variable fs root filename >>= λ cppvar.
          some (of_guard line cppvar))
      else some false

  unfoldable pub length_reports : Text → Bool → List Report
  unfolding may_be_long get_line_width decimal
  length_reports line guard_line =
      when (not (may_be_long line guard_line) && ltb line_length (get_line_width u line)) (
        report filename linenum "whitespace/line_length" 2
          (codes "Lines should be <= " ++ (decimal line_length ++ codes " characters long")))

  -- What CheckStyle says itself.
  unfoldable pub own_reports : Option (List Report)
  unfolding is_header_guard space_reports length_reports previous_text has_many_commands
  own_reports = get_elem? clean_lines.lines_without_raw_strings linenum >>= λ line.
      get_elem? clean_lines.raw_lines linenum >>= λ raw.
      get_elem? clean_lines.elided linenum >>= λ cleansed_line.
      is_header_guard line >>= λ guard_line. previous_text clean_lines linenum >>= λ prevline.
      let prev =
        (if ltb 0 linenum
          then get_or clean_lines.lines_without_raw_strings (linenum - 1) []
          else []) in
      some (
        space_reports filename linenum raw line prev cleansed_line
        ++ (length_reports line guard_line
            ++ when (has_many_commands line cleansed_line prevline) (
                report filename linenum "whitespace/newline" 0
                  (codes "More than one command on the same line"))))

  -- The checks behind CheckTrailingSemicolon.
  unfoldable pub later_reports : NestingState → Option (List Report)
  unfolding check_empty_block_body check_spacing check_operator_spacing check_parenthesis_spacing
      check_comma_spacing check_braces_spacing check_spacing_for_function_call check_check
      check_alt_tokens innermost_class check_section_spacing
  later_reports n = check_empty_block_body filename clean_lines linenum >>= λ r1.
      check_spacing filename clean_lines linenum n >>= λ r2.
      check_operator_spacing filename clean_lines linenum >>= λ r3.
      check_parenthesis_spacing filename clean_lines linenum >>= λ r4.
      check_comma_spacing filename clean_lines linenum >>= λ r5.
      check_braces_spacing filename clean_lines linenum n >>= λ r6.
      check_spacing_for_function_call filename clean_lines linenum >>= λ r7.
      check_check filename clean_lines linenum >>= λ r8.
      check_alt_tokens filename clean_lines linenum >>= λ r9.
      elim (innermost_class n) [
        | none ↦ some []
        | some (b, c) ↦ check_section_spacing filename clean_lines b c linenum
      ]
      >>= λ r10. some (r1 ++ (r2 ++ (r3 ++ (r4 ++ (r5 ++ (r6 ++ (r7 ++ (r8 ++ (r9 ++ r10)))))))))

  -- CheckStyle; each report with the NOLINT tables in force when it is made
  unfoldable pub check_style : NestingState → Suppressions → Option Made
  unfolding own_reports check_braces check_trailing_semicolon later_reports
  check_style n s = own_reports >>= λ own.
      check_braces (get_line_width u) line_length filename clean_lines linenum >>= λ braces.
      check_trailing_semicolon filename clean_lines linenum s >>= λ semicolons.
      later_reports n >>= λ later. some (
        semicolons.0,
        map (λ r. (s, r)) (own ++ braces) ++ (semicolons.1 ++ map (λ r. (semicolons.0, r)) later),
      )
