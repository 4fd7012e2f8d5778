-- ===== src/FileChecks.antt =====
-- Checks of a file or a line by themselves (build_support/cpplint.py): CheckForCopyright,
-- GetIndentLevel, CheckForBadCharacters, CheckForMultilineCommentsAndStrings, CheckVlogArguments,
-- CheckInvalidIncrement, IsMacroDefinition and IsForwardClassDeclaration. A check gives `none` for an
-- IndexError.
pub mod Threading
pub mod BadCharacters
use falcon_link.Prelude.{
  ℕ, zero, suc, ◌+◌, ◌-◌, ◌*◌, ◌/◌, ◌%◌, ◌^◌, ◌≤◌, ◌<◌, ◌≡◌, sym, ◌∙◌, ◌≡⟨◌⟩◌, ◌∎, ◌≢◌, ◌↔◌, ◌⊎◌,
  Bool, true, false, ◌&&◌, ◌||◌, Option, none, some, List, [], ◌∷◌, ◌++◌, any, codes, find, count,
  replace, lower, Text, ltb, ◌==◌, if◌then◌else◌, length, get_elem?, take, drop,
}
use falcon_link.Regex.{
  Regex, one, one_of, word, word_letter, boundary, star, plus, opt, dot, space, non_space, start,
  finish, group, contains, ◌▸◌, ◌∣◌, match_start, search_in, group_of,
}
use falcon_link.Report.{Report, report}
use falcon_link.CleansedLines.{CleansedLines}

-- re.search(r'Copyright', line, re.I)
unfoldable pub has_copyright : Text → Bool
unfolding find lower
has_copyright line = elim (find (lower line) (codes "copyright")) [ some _ ↦ true | none ↦ false ]

-- CheckForCopyright
unfoldable pub check_for_copyright : Text → List Text → List Report
unfolding any has_copyright
check_for_copyright filename lines =
    if any has_copyright (drop 1 (take 11 lines))
    then []
    else report filename 0 "legal/copyright" 5 (
        codes
          "No copyright message found.  You should have a line: \"Copyright [year] <Copyright Owner>\"")
      ∷ []

-- ^( *)\S
pub indent_pattern : Regex
indent_pattern = start ▸ group 1 (star (one b' ')) ▸ non_space

-- GetIndentLevel
unfoldable pub get_indent_level : Text → ℕ
unfolding match_start indent_pattern group_of
get_indent_level line = elim (match_start indent_pattern line) [
  | some m ↦ elim (group_of m 1) [ some spaces ↦ length spaces | none ↦ 0 ]
  | none ↦ 0
]

-- One round of the loop of CheckForBadCharacters.
unfoldable pub bad_characters : Text → ℕ → Text → List Report
unfolding contains
bad_characters filename linenum line =
    (if contains 65533 line
      then report filename linenum "readability/utf8" 5
          (codes "Line contains invalid UTF-8 (or Unicode replacement character).")
        ∷ []
      else [])
    ++ (if contains 0 line
        then report filename linenum "readability/nul" 5 (codes "Line contains NUL byte.") ∷ []
        else [])

-- The rounds from a line on.
unfoldable pub bad_characters_from : Text → ℕ → List Text → List Report
unfolding bad_characters
bad_characters_from filename linenum [] = []
bad_characters_from filename linenum (line ∷ lines) =
    bad_characters filename linenum line ++ bad_characters_from filename (linenum + 1) lines

-- CheckForBadCharacters
unfoldable pub check_for_bad_characters : Text → List Text → List Report
unfolding bad_characters_from
check_for_bad_characters filename lines = bad_characters_from filename 0 lines

-- What CheckForMultilineCommentsAndStrings says of a line. Each \" has a quotation mark, so that the
-- difference of the counts is no less than 0.
pub multiline_reports : Text → ℕ → Text → List Report
unfolding count
multiline_reports filename linenum line =
    (if ltb (count line (codes "*/")) (count line (codes "/*"))
      then report filename linenum "readability/multiline_comment" 5 (
          codes
            "Complex multi-line /*...*/-style comment found. Lint may give bogus warnings.  Consider replacing these with //-style comments, with #if 0...#endif, or with more clearly structured multi-line comments.")
        ∷ []
      else [])
    ++ (if (count line (codes "\"") - count line (codes "\\\"")) % 2 == 0
        then []
        else report filename linenum "readability/multiline_string" 5 (
            codes
              "Multi-line string (\"...\") found.  This lint script doesn't do well with such strings, and may give bogus warnings.  Use C++11 raw strings or concatenation instead.")
          ∷ [])

-- CheckForMultilineCommentsAndStrings
unfoldable pub check_for_multiline_comments_and_strings :
    Text → CleansedLines → ℕ → Option (List Report)
unfolding multiline_reports replace
check_for_multiline_comments_and_strings filename clean_lines linenum =
    elim (get_elem? clean_lines.elided linenum) [
      | none ↦ none
      | some line ↦ some (multiline_reports filename linenum (replace line (codes "\\\\") []))
    ]

-- \bVLOG\((INFO|ERROR|WARNING|DFATAL|FATAL)\)
pub vlog_pattern : Regex
unfolding word
vlog_pattern =
    boundary
    ▸ word "VLOG("
    ▸ group 1 (word "INFO" ∣ word "ERROR" ∣ word "WARNING" ∣ word "DFATAL" ∣ word "FATAL")
    ▸ one b')'

-- CheckVlogArguments
unfoldable pub check_vlog_arguments : Text → CleansedLines → ℕ → Option (List Report)
unfolding search_in vlog_pattern
check_vlog_arguments filename clean_lines linenum = elim (get_elem? clean_lines.elided linenum) [
  | none ↦ none
  | some line ↦ some (elim (search_in vlog_pattern line) [
    | none ↦ []
    | some _ ↦
        report filename linenum "runtime/vlog" 5 (
          codes
            "VLOG() should be used with numeric verbosity level.  Use LOG() if you want symbolic severity levels.")
        ∷ []
  ])
]

-- ^\s*\*\w+(\+\+|--);
pub invalid_increment : Regex
unfolding word
invalid_increment =
    start ▸ star space ▸ one b'*' ▸ plus word_letter ▸ group 1 (word "++" ∣ word "--") ▸ one b';'

-- CheckInvalidIncrement
unfoldable pub check_invalid_increment : Text → CleansedLines → ℕ → Option (List Report)
unfolding match_start invalid_increment
check_invalid_increment filename clean_lines linenum = elim (get_elem? clean_lines.elided linenum) [
  | none ↦ none
  | some line ↦ some (elim (match_start invalid_increment line) [
    | none ↦ []
    | some _ ↦
        report filename linenum "runtime/invalid_increment" 5
          (codes "Changing pointer instead of value (or unused value of operator*).")
        ∷ []
  ])
]

-- ^#define
pub define_pattern : Regex
unfolding word
define_pattern = start ▸ word "#define"

-- \\$
pub continued_pattern : Regex
continued_pattern = one b'\\' ▸ finish

pub matches_at : Regex → List Text → ℕ → Option Bool
unfolding search_in
matches_at r lines linenum = elim (get_elem? lines linenum) [
  | none ↦ none
  | some line ↦ some (elim (search_in r line) [ some _ ↦ true | none ↦ false ])
]

-- `linenum > 0 and` the line before is continued.
pub continues_macro : List Text → ℕ → Option Bool
unfolding matches_at continued_pattern
continues_macro lines zero = some false
continues_macro lines (suc previous) = matches_at continued_pattern lines previous

-- IsMacroDefinition
unfoldable pub is_macro_definition : List Text → ℕ → Option Bool
unfolding matches_at define_pattern continues_macro
is_macro_definition clean_lines linenum = elim (matches_at define_pattern clean_lines linenum) [
  | none ↦ none
  | some true ↦ some true
  | some false ↦ continues_macro clean_lines linenum
]

-- ^\s*(\btemplate\b)*.*class\s+\w+;\s*$
pub forward_class : Regex
unfolding word
forward_class =
    start
    ▸ star space
    ▸ star (group 1 (boundary ▸ word "template" ▸ boundary))
    ▸ star dot
    ▸ word "class"
    ▸ plus space
    ▸ plus word_letter
    ▸ one b';'
    ▸ star space
    ▸ finish

-- IsForwardClassDeclaration, of which the callers use only whether it is None
unfoldable pub is_forward_class_declaration : List Text → ℕ → Option Bool
unfolding match_start forward_class
is_forward_class_declaration clean_lines linenum = elim (get_elem? clean_lines linenum) [
  | none ↦ none
  | some line ↦ some (elim (match_start forward_class line) [ some _ ↦ true | none ↦ false ])
]
