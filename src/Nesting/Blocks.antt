-- ===== src/Nesting/Blocks.antt =====
-- CheckBegin and CheckEnd of the blocks (build_support/cpplint.py). An IndexError is `none`.
pub mod Returns
use falcon_link.Prelude.{
  ℕ, zero, suc, ◌+◌, ◌-◌, ◌*◌, ◌/◌, ◌%◌, ◌^◌, ◌≤◌, ◌<◌, ◌≡◌, ◌∙◌, ◌≡⟨◌⟩◌, ◌∎, ◌≢◌, ◌↔◌, ◌⊎◌, Bool,
  true, false, not, ◌&&◌, ◌||◌, Option, none, some, List, [], ◌∷◌, ◌++◌, any, codes, text_eq,
  is_space, Text, ltb, ◌==◌, if◌then◌else◌, length, get_elem?,
}
use falcon_link.Regex.{
  Regex, letter, one, one_of, none_of, word, word_of, boundary, star, opt, dot, space, start,
  finish, group, ◌▸◌, ◌∣◌, Found, match_start, search_in, group_of,
}
use falcon_link.Report.{Report, report}
use falcon_link.Nolint.{matches}
use falcon_link.RawStrings.{group_text}
use falcon_link.CleansedLines.{CleansedLines}
use falcon_link.Nesting.{Block, Kind, ClassInfo, plain, extern_c, class_info, namespace_info}

-- (^|[^:]):($|[^:])
pub bare_colon : Regex
unfolding none_of
bare_colon = group 1 (start ∣ none_of ":") ▸ one b':' ▸ group 2 (finish ∣ none_of ":")

-- CheckBegin of a block, by its kind: a class with a bare colon is derived.
unfoldable pub check_begin_of : CleansedLines → ℕ → Block → Kind → Option Block
unfolding matches bare_colon
check_begin_of clean_lines linenum b plain = some b
check_begin_of clean_lines linenum b extern_c = some b
check_begin_of clean_lines linenum b (namespace_info name) = some b
check_begin_of clean_lines linenum b (class_info c) = elim (get_elem? clean_lines.elided linenum) [
  | none ↦ none
  | some line ↦ some (
      if matches bare_colon line
      then record b { kind = class_info (record c { is_derived = true }) }
      else b)
]

-- CheckBegin
unfoldable pub check_begin : CleansedLines → ℕ → Block → Option Block
unfolding check_begin_of
check_begin clean_lines linenum b = check_begin_of clean_lines linenum b b.kind

-- \b(DISALLOW_COPY_AND_ASSIGN|DISALLOW_IMPLICIT_CONSTRUCTORS)\((name)\)
pub disallow : Text → Regex
unfolding word word_of
disallow name =
    boundary
    ▸ group 1 (word "DISALLOW_COPY_AND_ASSIGN" ∣ word "DISALLOW_IMPLICIT_CONSTRUCTORS")
    ▸ one b'('
    ▸ word_of name
    ▸ one b')'

-- ^\s*$
unfoldable pub blank_pattern : Regex
blank_pattern = start ▸ star space ▸ finish

-- The loop of _ClassInfo.CheckEnd, over the lines between, the last one first, with their numbers.
unfoldable pub check_disallow : Text → Text → Bool → List (ℕ × Text) → List Report
unfolding search_in disallow matches blank_pattern
check_disallow filename name seen [] = []
check_disallow filename name seen ((i, line) ∷ lines) = elim (search_in (disallow name) line) [
  | some m ↦
      if seen
      then report filename i "readability/constructors" 3
          (group_text m 1 ++ codes " should be the last thing in the class")
        ∷ []
      else []
  | none ↦ check_disallow filename name (seen || not (matches blank_pattern line)) lines
]

-- `xrange(linenum - 1, starting_linenum, -1)`, with the lines of these numbers: `n` of them, down
-- from the one before `i`. A number out of range is an IndexError.
unfoldable pub lines_down : ℕ → ℕ → List Text → Option (List (ℕ × Text))
lines_down zero i lines = some []
lines_down (suc n) i lines = elim (get_elem? lines (i - 1)) [
  | none ↦ none
  | some line ↦ elim (lines_down n (i - 1) lines) [
    | none ↦ none
    | some rest ↦ some ((i - 1, line) ∷ rest)
  ]
]

-- ^( *)\}
pub closing_indent : Regex
closing_indent = start ▸ group 1 (star (one b' ')) ▸ one b'}'

unfoldable pub class_title : ClassInfo → Text
class_title c = (if c.is_struct then codes "struct " else codes "class ") ++ c.name

-- The closing brace of a class stands under its beginning.
pub check_indent : Text → ℕ → ClassInfo → Text → List Report
unfolding match_start closing_indent class_title
check_indent filename linenum c line = elim (match_start closing_indent line) [
  | none ↦ []
  | some m ↦
      if length (group_text m 1) == c.class_indent
      then []
      else report filename linenum "whitespace/indent" 3
          (codes "Closing brace should be aligned with beginning of " ++ class_title c)
        ∷ []
]

-- _ClassInfo.CheckEnd. The loop stops at a match, before a line that is not there; in a file the
-- lines between are.
pub check_end_class : Text → CleansedLines → ℕ → Block → ClassInfo → Option (List Report)
unfolding check_disallow lines_down check_indent
check_end_class filename clean_lines linenum b c =
    elim (lines_down (linenum - 1 - b.starting_linenum) linenum clean_lines.elided) [
      | none ↦ none
      | some lines ↦ elim (get_elem? clean_lines.elided linenum) [
        | none ↦ none
        | some line ↦
            some
              (check_disallow filename c.name false lines ++ check_indent filename linenum c line)
      ]
    ]

-- ^\s*};*\s*(//|/\*).*, the beginning of a comment at the end of a namespace
pub namespace_comment : Regex
unfolding word
namespace_comment =
    start
    ▸ star space
    ▸ one b'}'
    ▸ star (one b';')
    ▸ star space
    ▸ group 1 (word "//" ∣ word "/*")
    ▸ star dot

-- [\*/\.\\\s]*$
pub comment_end : Regex
comment_end =
    star (letter (λ c. c == b'*' || c == b'/' || c == b'.' || c == b'\\' || is_space c)) ▸ finish

-- ^\s*};*\s*(//|/\*).*\bnamespace\b
pub any_namespace : Regex
unfolding namespace_comment word
any_namespace = namespace_comment ▸ boundary ▸ word "namespace" ▸ boundary

-- ^\s*};*\s*(//|/\*).*\bnamespace\s+(name)[\*/\.\\\s]*$
pub named_namespace : Text → Regex
unfolding namespace_comment word word_of comment_end
named_namespace name =
    namespace_comment
    ▸ boundary
    ▸ word "namespace"
    ▸ space
    ▸ star space
    ▸ word_of name
    ▸ comment_end

-- ^\s*};*\s*(//|/\*).*\bnamespace[\*/\.\\\s]*$
pub unnamed_namespace : Regex
unfolding namespace_comment word comment_end
unnamed_namespace = namespace_comment ▸ boundary ▸ word "namespace" ▸ comment_end

-- ^\s*}.*\b(namespace anonymous|anonymous namespace)\b
pub anonymous : Regex
unfolding word
anonymous =
    start
    ▸ star space
    ▸ one b'}'
    ▸ star dot
    ▸ boundary
    ▸ group 1 (word "namespace anonymous" ∣ word "anonymous namespace")
    ▸ boundary

unfoldable pub starts : Regex → Text → Bool
unfolding match_start
starts r line = elim (match_start r line) [ some _ ↦ true | none ↦ false ]

-- What _NamespaceInfo.CheckEnd says of the raw line.
pub check_end_comment : Text → ℕ → Text → Text → List Report
unfolding starts named_namespace unnamed_namespace anonymous text_eq
check_end_comment filename linenum name line =
    if not (text_eq name [])
    then (if starts (named_namespace name) line
        then []
        else report filename linenum "readability/namespace" 5
            (codes "Namespace should be terminated with \"// namespace " ++ (name ++ codes "\""))
          ∷ [])
    else if starts unnamed_namespace line
    then []
    else if starts anonymous line
    then report filename linenum "readability/namespace" 5 (
        codes
          "Anonymous namespace should be terminated with \"// namespace\" or \"// anonymous namespace\"")
      ∷ []
    else report filename linenum "readability/namespace" 5
        (codes "Anonymous namespace should be terminated with \"// namespace\"")
      ∷ []

-- _NamespaceInfo.CheckEnd: a namespace of less than ten lines needs no comment. The difference of the
-- line numbers is less than 10 where it is negative too.
pub check_end_namespace : Text → CleansedLines → ℕ → Block → Text → Option (List Report)
unfolding starts any_namespace check_end_comment
check_end_namespace filename clean_lines linenum b name =
    elim (get_elem? clean_lines.raw_lines linenum) [
      | none ↦ none
      | some line ↦ some (
          if ltb linenum (b.starting_linenum + 10) && not (starts any_namespace line)
          then []
          else check_end_comment filename linenum name line)
    ]

-- CheckEnd of a block, by its kind
unfoldable pub check_end_of : Text → CleansedLines → ℕ → Block → Kind → Option (List Report)
unfolding check_end_class check_end_namespace
check_end_of filename clean_lines linenum b plain = some []
check_end_of filename clean_lines linenum b extern_c = some []
check_end_of filename clean_lines linenum b (class_info c) =
    check_end_class filename clean_lines linenum b c
check_end_of filename clean_lines linenum b (namespace_info name) =
    check_end_namespace filename clean_lines linenum b name

-- CheckEnd
unfoldable pub check_end : Text → CleansedLines → ℕ → Block → Option (List Report)
unfolding check_end_of
check_end filename clean_lines linenum b = check_end_of filename clean_lines linenum b b.kind
