-- ===== src/HeaderGuard/Checks.antt =====
-- CheckForHeaderGuard (build_support/cpplint.py).
pub mod Reports
pub mod Bounds
use falcon_link.Prelude.{
  ℕ, ◌+◌, ◌-◌, ◌*◌, ◌/◌, ◌%◌, ◌^◌, ◌≤◌, ◌<◌, ◌≡◌, ◌∙◌, ◌≡⟨◌⟩◌, ◌∎, ◌≢◌, ◌↔◌, ◌⊎◌, Bool, true, false,
  not, ◌&&◌, ◌||◌, Option, none, some, List, [], ◌∷◌, ◌++◌, map, reverse, any, codes, text_eq,
  starts_with, find, is_space, split, Text, ◌==◌, if◌then◌else◌, length, get_or, take, drop,
}
use falcon_link.Regex.{
  Regex, Found, one, one_of, word, word_of, none_of, dot, boundary, star, plus, opt, space, start,
  group, ◌▸◌, ◌∣◌, match_start, search_in, group_of,
}
use falcon_link.Report.{Report, report}
use falcon_link.Nolint.{Suppressions, parse_nolint_suppressions, matches}
use falcon_link.CleansedLines.{CleansedLines}
use falcon_link.HeaderGuard.{FileNames, get_header_guard_cpp_variable}

-- line.split(): the pieces between white space
unfoldable pub split_words : Text → Text → List Text
unfolding is_space
split_words piece [] = elim piece [ [] ↦ [] | c ∷ t ↦ reverse (c ∷ t) ∷ [] ]
split_words piece (c ∷ t) =
    let ended = split_words [] t in
    let longer = split_words (c ∷ piece) t in
    if is_space c then elim piece [ [] ↦ ended | d ∷ u ↦ reverse (d ∷ u) ∷ ended ] else longer

-- //\s*NOLINT\(build/header_guard\)
pub nolint_guard : Regex
unfolding word
nolint_guard = word "//" ▸ star space ▸ word "NOLINT(build/header_guard)"

-- ^\s*#pragma\s+once
pub pragma_once : Regex
unfolding word
pragma_once = start ▸ star space ▸ word "#pragma" ▸ plus space ▸ word "once"

-- ifndef, ifndef_linenum, define, endif, endif_linenum
pub record Guard : Type 0 where
  pub ifndef : Text
  pub ifndef_linenum : ℕ
  pub define : Text
  pub endif : Text
  pub endif_linenum : ℕ

abbrev pub no_guard : Guard
no_guard = record { ifndef = []; ifndef_linenum = 0; define = []; endif = []; endif_linenum = 0 }

-- The first two words of a line, if it has as many.
pub see_ifndef : ℕ → List Text → Guard → Guard
unfolding text_eq
see_ifndef linenum (first ∷ second ∷ others) g =
    if text_eq g.ifndef [] && text_eq first (codes "#ifndef")
    then record g { ifndef = second; ifndef_linenum = linenum }
    else g
see_ifndef linenum _ g = g

pub see_define : List Text → Guard → Guard
unfolding text_eq
see_define (first ∷ second ∷ others) g =
    if text_eq g.define [] && text_eq first (codes "#define")
    then record g { define = second }
    else g
see_define _ g = g

pub see_endif : ℕ → Text → Guard → Guard
unfolding starts_with
see_endif linenum line g =
    if starts_with line (codes "#endif")
    then record g { endif = line; endif_linenum = linenum }
    else g

-- The loop over the lines, from a line number on.
unfoldable pub find_guard : ℕ → List Text → Guard → Guard
unfolding split_words see_ifndef see_define see_endif
find_guard linenum [] g = g
find_guard linenum (line ∷ lines) g = find_guard (linenum + 1) lines (
    see_endif linenum line
      (see_define (split_words [] line) (see_ifndef linenum (split_words [] line) g)))

-- #endif\s*//\s*(cppvar)(_)?\b
pub line_guard : Text → Regex
unfolding word word_of
line_guard cppvar =
    word "#endif"
    ▸ star space
    ▸ word "//"
    ▸ star space
    ▸ word_of cppvar
    ▸ opt (group 1 (one b'_'))
    ▸ boundary

-- #endif\s*/\*\s*(cppvar)(_)?\s*\*/
pub block_guard : Text → Regex
unfolding word word_of
block_guard cppvar =
    word "#endif"
    ▸ star space
    ▸ word "/*"
    ▸ star space
    ▸ word_of cppvar
    ▸ opt (group 1 (one b'_'))
    ▸ star space
    ▸ word "*/"

-- ^(?:(?:\'(?:\.|[^\'])*\')|(?:"(?:\.|[^"])*")|[^\'"])*//
pub has_line_comment : Regex
unfolding word none_of
has_line_comment =
    start
    ▸ star (
        one b'\'' ▸ star (one b'.' ∣ none_of "'") ▸ one b'\''
        ∣ one b'"' ▸ star (one b'.' ∣ none_of "\"") ▸ one b'"'
        ∣ none_of "'\"")
    ▸ word "//"

-- A report on the #endif line, with the name of the guard in a comment.
pub endif_report : Text → ℕ → ℕ → Text → Text → List Report
endif_report filename linenum level before after =
    report filename linenum "build/header_guard" level
      (codes "#endif line should be \"#endif  " ++ (before ++ (after ++ codes "\"")))
    ∷ []

-- What is said of a comment that was found: only that a second underscore is deprecated.
pub deprecated : Text → ℕ → Found → Text → Text → List Report
unfolding group_of endif_report
deprecated filename linenum m before after = elim (group_of m 1) [
  | none ↦ []
  | some _ ↦ endif_report filename linenum 0 before after
]

-- The lines 1 to len(raw_lines) - 2 have no `//` comment.
pub no_single_line_comments : List Text → Bool
unfolding any match_start has_line_comment
no_single_line_comments raw_lines = not (
    any (λ line. elim (match_start has_line_comment line) [ some _ ↦ true | none ↦ false ])
      (drop 1 (take (length raw_lines - 1) raw_lines)))

-- The checks of the comment on the #endif line.
pub check_endif : Text → Text → List Text → Guard → List Report
unfolding match_start line_guard block_guard deprecated endif_report no_single_line_comments
check_endif filename cppvar raw_lines g =
    let missing = endif_report filename g.endif_linenum 5 (codes "// ") cppvar in
    elim (match_start (line_guard cppvar) g.endif) [
      | some m ↦ deprecated filename g.endif_linenum m (codes "// ") cppvar
      | none ↦
          if no_single_line_comments raw_lines
          then elim (match_start (block_guard cppvar) g.endif) [
            | some m ↦ deprecated filename g.endif_linenum m (codes "/* ") (cppvar ++ codes " */")
            | none ↦ missing
          ]
          else missing
    ]

-- The report on a guard that is not the name: none for the name, of level 0 with one more underscore.
pub check_ifndef : Text → Text → Guard → List Report
unfolding text_eq
check_ifndef filename cppvar g =
    if text_eq g.ifndef cppvar
    then []
    else report filename g.ifndef_linenum "build/header_guard"
        (if text_eq g.ifndef (cppvar ++ codes "_") then 0 else 5)
        (codes "#ifndef header guard has wrong style, please use: " ++ cppvar)
      ∷ []

-- A call of ParseNolintSuppressions, then reports; each one with the tables in force when it is made.
abbrev pub Made : Type 0
Made = Suppressions × List (Suppressions × Report)

unfoldable pub parse_then : Text → List Text → ℕ → List Report → Suppressions → Made
unfolding parse_nolint_suppressions
parse_then filename raw_lines linenum reports s =
    let (t, parsed) = parse_nolint_suppressions filename (get_or raw_lines linenum []) linenum s in
    (t, map (λ r. (t, r)) (parsed ++ reports))

-- The part for files with a guard.
pub check_guard : Text → Text → List Text → Guard → Suppressions → Made
unfolding parse_then check_ifndef check_endif
check_guard filename cppvar raw_lines g s =
    let (t, first) =
      (if text_eq g.ifndef cppvar
        then (s, [])
        else parse_then filename raw_lines g.ifndef_linenum (check_ifndef filename cppvar g) s) in
    let (u, second) =
      parse_then filename raw_lines g.endif_linenum (check_endif filename cppvar raw_lines g) t in
    (u, first ++ second)

-- CheckForHeaderGuard
unfoldable pub check_for_header_guard :
    FileNames → Option Text → Text → CleansedLines → Suppressions → Option Made
unfolding any matches nolint_guard pragma_once get_header_guard_cpp_variable find_guard check_guard
check_for_header_guard fs root filename clean_lines s =
    let raw_lines = clean_lines.lines_without_raw_strings in
    if any (matches nolint_guard) raw_lines || any (matches pragma_once) raw_lines
    then some (s, [])
    else elim (get_header_guard_cpp_variable fs root filename) [
      | none ↦ none
      | some cppvar ↦
          let g = find_guard 0 raw_lines no_guard in
          if text_eq g.ifndef [] || (text_eq g.define [] || not (text_eq g.ifndef g.define))
          then some (
            s,
            (
              s,
              report filename 0 "build/header_guard" 5
                  (codes "No #ifndef header guard found, suggested CPP variable is: " ++ cppvar),
            )
                ∷ [],
          )
          else some (check_guard filename cppvar raw_lines g s)
    ]
