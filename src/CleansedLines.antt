-- ===== src/CleansedLines.antt =====
-- `CleansedLines` (build_support/cpplint.py): four copies of the lines of a file, and the collapsing of
-- strings. `none` stands for an exception, or for fuel that ran out.
pub mod Quotes
pub mod Collapse
pub mod Copies
use falcon_link.Prelude.{
  ℕ, zero, suc, ◌+◌, ◌-◌, ◌*◌, ◌/◌, ◌%◌, ◌^◌, ◌≤◌, ◌<◌, ◌≡◌, ◌∙◌, ◌≡⟨◌⟩◌, ◌∎, ◌≢◌, ◌↔◌, ◌⊎◌, Bool,
  true, false, ◌&&◌, ◌||◌, Option, none, some, List, [], ◌∷◌, ◌++◌, map, codes, text_eq, find,
  replace, Text, leb, ◌==◌, if◌then◌else◌, length, get_or, drop,
}
use mathlib.Core.Option.{get_or as option_or}
use falcon_link.Regex.{
  Regex, letter, star, start, finish, boundary, group, one, word, one_of, none_of, dot, space,
  digit, plus, opt, ◌▸◌, ◌∣◌, Found, match_start, search_in, group_of, remove_all,
}
use falcon_link.Comments.{cleanse_comments}
use falcon_link.RawStrings.{cleanse_raw_strings, group_text}

-- ^\s*#\s*include\s*([<"])([^>"]*)[>"].*$
pub include_pattern : Regex
unfolding word one_of none_of
include_pattern =
    start
    ▸ star space
    ▸ one b'#'
    ▸ star space
    ▸ word "include"
    ▸ star space
    ▸ group 1 (one_of "<\"")
    ▸ group 2 (star (none_of ">\""))
    ▸ one_of ">\""
    ▸ star dot
    ▸ finish

-- [0-9a-fA-F]
pub is_hex : ℕ → Bool
is_hex c = (leb b'0' c && leb c b'9') || (leb b'a' c && leb c b'f') || (leb b'A' c && leb c b'F')

-- \\([abfnrtv?"\\\']|\d+|x[0-9a-fA-F]+)
pub line_escapes : Regex
unfolding one_of is_hex
line_escapes =
    one b'\\' ▸ group 1 (one_of "abfnrtv?\"\\'" ∣ plus digit ∣ one b'x' ▸ plus (letter is_hex))

-- ^([^\'"]*)([\'"])(.*)$
pub first_quote : Regex
unfolding one_of none_of
first_quote =
    start ▸ group 1 (star (none_of "'\"")) ▸ group 2 (one_of "'\"") ▸ group 3 (star dot) ▸ finish

-- \b(?:0[bBxX]?|[1-9])[0-9a-fA-F]*$
pub number_end : Regex
unfolding one_of is_hex
number_end =
    boundary
    ▸ (one b'0' ▸ opt (one_of "bBxX") ∣ letter (λ c. leb b'1' c && leb c b'9'))
    ▸ star (letter is_hex)
    ▸ finish

-- [0-9a-zA-Z_]
pub is_literal : ℕ → Bool
is_literal c =
    (leb b'0' c && leb c b'9')
    || (leb b'a' c && leb c b'z')
    || (leb b'A' c && leb c b'Z')
    || c == b'_'

-- ^((?:\'?[0-9a-zA-Z_])*)(.*)$
pub digit_separators : Regex
unfolding is_literal
digit_separators =
    start ▸ group 1 (star (opt (one b'\'') ▸ letter is_literal)) ▸ group 2 (star dot) ▸ finish

-- The loop `while True`, with the collapsed text so far.
unfoldable pub collapse_quotes : ℕ → Text → Text → Option Text
unfolding match_start search_in group_of first_quote number_end digit_separators find replace
collapse_quotes zero collapsed elided = none
collapse_quotes (suc fuel) collapsed elided = elim (match_start first_quote elided) [
  | none ↦ some (collapsed ++ elided)
  | some m ↦
      let head = group_text m 1 in
      let quote = group_text m 2 in
      let tail = group_text m 3 in
      elim (text_eq quote (codes "\"")) [
        | true ↦ elim (find tail (codes "\"")) [
          | some second_quote ↦
              collapse_quotes fuel (collapsed ++ (head ++ codes "\"\""))
                (drop (second_quote + 1) tail)
          | none ↦ some (collapsed ++ elided)
        ]
        | false ↦ elim (search_in number_end head) [
          | some _ ↦ elim (match_start digit_separators (codes "'" ++ tail)) [
            | none ↦ none
            | some l ↦
                collapse_quotes fuel
                  (collapsed ++ (head ++ replace (group_text l 1) (codes "'") [])) (group_text l 2)
          ]
          | none ↦ elim (find tail (codes "'")) [
            | some second_quote ↦
                collapse_quotes fuel (collapsed ++ (head ++ codes "''"))
                  (drop (second_quote + 1) tail)
            | none ↦ some (collapsed ++ elided)
          ]
        ]
      ]
]

-- _CollapseStrings
unfoldable pub collapse_strings : Text → Option Text
unfolding match_start include_pattern remove_all line_escapes collapse_quotes
collapse_strings elided = elim (match_start include_pattern elided) [
  | some _ ↦ some elided
  | none ↦ let clean = remove_all line_escapes elided in collapse_quotes (length clean + 1) [] clean
]

pub record CleansedLines : Type 0 where
  pub elided : List Text
  pub lines : List Text
  pub raw_lines : List Text
  pub num_lines : ℕ
  pub lines_without_raw_strings : List Text

-- The loop of __init__ over the lines without raw strings: `self.elided`.
pub elide_lines : List Text → Option (List Text)
unfolding collapse_strings cleanse_comments
elide_lines [] = some []
elide_lines (line ∷ lines) = elim (collapse_strings line) [
  | none ↦ none
  | some e ↦ elim (elide_lines lines) [ none ↦ none | some es ↦ some (cleanse_comments e ∷ es) ]
]

-- __init__
unfoldable pub cleanse_lines : List Text → Option CleansedLines
unfolding cleanse_raw_strings elide_lines cleanse_comments
cleanse_lines lines = elim (cleanse_raw_strings lines) [
  | none ↦ none
  | some without ↦ elim (elide_lines without) [
    | none ↦ none
    | some elided ↦ some (record {
      elided = elided;
      lines = map cleanse_comments without;
      raw_lines = lines;
      num_lines = length lines;
      lines_without_raw_strings = without;
    })
  ]
]

-- NumLines
abbrev pub num_lines : CleansedLines → ℕ
num_lines c = c.num_lines
