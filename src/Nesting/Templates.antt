-- ===== src/Nesting/Templates.antt =====
-- InTemplateArgumentList (build_support/cpplint.py).
pub mod Returns
use falcon_link.Prelude.{
  ℕ, zero, suc, ◌+◌, ◌-◌, ◌*◌, ◌/◌, ◌%◌, ◌^◌, ◌≤◌, ◌<◌, ◌≡◌, ◌∙◌, ◌≡⟨◌⟩◌, ◌∎, ◌≢◌, ◌↔◌, ◌⊎◌, Bool,
  true, false, not, ◌&&◌, ◌||◌, Option, none, some, List, [], ◌∷◌, ◌++◌, codes, Text, leb, ◌==◌,
  if◌then◌else◌, length, get_elem?, get_or, take, drop,
}
use Prim.Native.String.{String}
use falcon_link.Regex.{
  Regex, none_of, one_of, dot, star, start, group, ◌▸◌, contains, Found, match_start,
}
use falcon_link.RawStrings.{group_text}
use falcon_link.CleansedLines.{CleansedLines}
use falcon_link.Expression.{close_expression}

-- ^[^{};=\[\]\.<>]*(.)
pub suspect : Regex
unfolding none_of
suspect = start ▸ star (none_of "{};=[].<>") ▸ group 1 dot

abbrev pub is_among : String → ℕ → Bool
is_among s c = contains c (codes s)

-- What a round of the loop does: it returns, or goes on at a line and a position.
pub data Round : Type 0 where
  answer : Bool → Round
  go_on : ℕ → ℕ → Round

-- A letter that is not an answer: `behind` is the position behind it. An unmatched `<` has a matching
-- `>`, or is an answer too; `none` is an IndexError.
unfoldable pub other_token : CleansedLines → ℕ → Text → ℕ → ℕ → Option Round
unfolding close_expression
other_token lines linenum line token behind =
    if not (token == b'<')
    then some (
        if leb (length line) (behind + 1)
        then go_on (linenum + 1) 0
        else go_on linenum (behind + 1))
    else elim (close_expression lines linenum (behind - 1)) [
      | none ↦ none
      | some (found_line, end_line, none) ↦ some (answer false)
      | some (found_line, end_line, some end_pos) ↦ some (go_on end_line end_pos)
    ]

-- The body of the loop.
unfoldable pub template_round : CleansedLines → ℕ → ℕ → Text → Option Round
unfolding match_start suspect contains other_token
template_round lines linenum pos line = elim (match_start suspect (drop pos line)) [
  | none ↦ some (go_on (linenum + 1) 0)
  | some m ↦
      let token = get_or (group_text m 1) 0 0 in
      if is_among "{};" token
      then some (answer false)
      else if is_among ">=[]." token
      then some (answer true)
      else other_token lines linenum line token (pos + length m.hit)
]

-- The loop; `none` is an IndexError, or fuel that ran out.
unfoldable pub template_loop : ℕ → CleansedLines → ℕ → ℕ → Option Bool
unfolding template_round
template_loop zero lines linenum pos = none
template_loop (suc fuel) lines linenum pos =
    if leb lines.num_lines linenum then some false else elim (get_elem? lines.elided linenum) [
      | none ↦ none
      | some line ↦ elim (template_round lines linenum pos line) [
        | none ↦ none
        | some (answer b) ↦ some b
        | some (go_on next position) ↦ template_loop fuel lines next position
      ]
    ]

-- The rounds that a number of lines may take.
unfoldable pub rounds : List Text → ℕ
rounds [] = 1
rounds (line ∷ lines) = length line + 1 + rounds lines

-- InTemplateArgumentList
unfoldable pub in_template_argument_list : CleansedLines → ℕ → ℕ → Option Bool
unfolding template_loop rounds
in_template_argument_list lines linenum pos =
    template_loop (rounds (drop linenum lines.elided)) lines linenum pos
