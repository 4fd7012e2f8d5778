-- ===== src/RawStrings.antt =====
-- CleanseRawStrings (build_support/cpplint.py). `none` stands for an exception, or for fuel that ran out.
pub mod Shape
pub mod Lines
use falcon_link.Prelude.{
  ℕ, zero, suc, ◌+◌, ◌-◌, ◌*◌, ◌/◌, ◌%◌, ◌^◌, ◌≤◌, ◌<◌, ◌≡◌, ◌∙◌, ◌≡⟨◌⟩◌, ◌∎, ◌≢◌, ◌↔◌, ◌⊎◌, Bool,
  not, ◌&&◌, ◌||◌, Option, none, some, List, [], ◌∷◌, ◌++◌, codes, find, replace, is_space, Text,
  ◌==◌, if◌then◌else◌, length, get_or, drop,
}
use mathlib.Core.Option.{get_or as option_or}
use falcon_link.Regex.{
  Regex, letter, star, lazy, start, finish, boundary, group, one, word, one_of, none_of, dot, space,
  non_space, contains, ◌▸◌, ◌∣◌, Found, match_start, group_of,
}

-- [^\s\\()]
pub delimiter_letter : ℕ → Bool
unfolding contains codes
delimiter_letter c = not (is_space c || contains c (codes "\\()"))

-- ^(.*?)\b(?:R|u8R|uR|UR|LR)"([^\s\\()]*)\((.*)$
pub raw_string : Regex
unfolding word delimiter_letter
raw_string =
    start
    ▸ group 1 (lazy dot)
    ▸ boundary
    ▸ (one b'R' ∣ word "u8R" ∣ word "uR" ∣ word "UR" ∣ word "LR")
    ▸ one b'"'
    ▸ group 2 (star (letter delimiter_letter))
    ▸ one b'('
    ▸ group 3 (star dot)
    ▸ finish

-- ^([^\'"]|\'(\\.|[^\'])*\'|"(\\.|[^"])*")*//
pub line_comment : Regex
unfolding word none_of
line_comment =
    start
    ▸ star (
        group 1 (
          none_of "'\""
          ∣ one b'\'' ▸ star (group 2 (one b'\\' ▸ dot ∣ none_of "'")) ▸ one b'\''
          ∣ one b'"' ▸ star (group 3 (one b'\\' ▸ dot ∣ none_of "\"")) ▸ one b'"'))
    ▸ word "//"

-- ^(\s*)\S
pub leading_space : Regex
leading_space = start ▸ group 1 (star space) ▸ non_space

-- The text of a group that took part in the match.
abbrev pub group_text : Found → ℕ → Text
group_text m i = option_or (group_of m i) []

-- The match of the beginning of a raw string that is not in a line comment.
unfoldable pub find_raw_string : Text → Option Found
unfolding match_start raw_string line_comment group_of
find_raw_string line = elim (match_start raw_string line) [
  | none ↦ none
  | some m ↦ elim (match_start line_comment (group_text m 1)) [ none ↦ some m | some _ ↦ none ]
]

-- ')' + matched.group(2) + '"'
pub end_delimiter : Found → Text
end_delimiter m = codes ")" ++ (group_text m 2 ++ codes "\"")

-- The loop `while delimiter is None`: the line, and the delimiter of a raw string that goes on.
unfoldable pub replace_raw_strings : ℕ → Text → Option (Text × Option Text)
unfolding find find_raw_string end_delimiter
replace_raw_strings zero line = none
replace_raw_strings (suc fuel) line = elim (find_raw_string line) [
  | none ↦ some (line, none)
  | some m ↦ elim (find (group_text m 3) (end_delimiter m)) [
    | none ↦ some (group_text m 1 ++ codes "\"\"", some (end_delimiter m))
    | some end ↦
        replace_raw_strings fuel (
          group_text m 1
          ++ (codes "\"\"" ++ drop (end + length (end_delimiter m)) (group_text m 3)))
  ]
]

-- The first part of a round: the end of a raw string that goes on is looked for.
pub resume_line : Text → Text → Option (Text × Option Text)
unfolding find match_start leading_space group_of
resume_line delimiter line = elim (find line delimiter) [
  | none ↦ some (codes "\"\"", some delimiter)
  | some end ↦ elim (match_start leading_space line) [
    | none ↦ none
    | some m ↦ some (group_text m 1 ++ (codes "\"\"" ++ drop (end + length delimiter) line), none)
  ]
]

-- One round of the `for` loop.
pub cleanse_line : Option Text → Text → Option (Text × Option Text)
unfolding resume_line replace_raw_strings
cleanse_line none line = replace_raw_strings (length line + 1) line
cleanse_line (some delimiter) line = elim (resume_line delimiter line) [
  | none ↦ none
  | some (line', some d) ↦ some (line', some d)
  | some (line', none) ↦ replace_raw_strings (length line' + 1) line'
]

pub cleanse_from : Option Text → List Text → Option (List Text)
unfolding cleanse_line
cleanse_from delimiter [] = some []
cleanse_from delimiter (line ∷ lines) = elim (cleanse_line delimiter line) [
  | none ↦ none
  | some (line', d) ↦ elim (cleanse_from d lines) [ none ↦ none | some rest ↦ some (line' ∷ rest) ]
]

-- CleanseRawStrings
unfoldable pub cleanse_raw_strings : List Text → Option (List Text)
unfolding cleanse_from
cleanse_raw_strings = cleanse_from none
