-- ===== src/BlankLines.antt =====
-- IsBlankLine and GetPreviousNonBlankLine (build_support/cpplint.py).
pub mod Previous
use falcon_link.Prelude.{
  ℕ, zero, suc, ◌+◌, ◌-◌, ◌*◌, ◌/◌, ◌%◌, ◌^◌, ◌≤◌, ◌<◌, ◌≡◌, ◌∙◌, ◌≡⟨◌⟩◌, ◌∎, ◌≢◌, ◌↔◌, ◌⊎◌, Bool,
  true, false, ◌&&◌, ◌||◌, Option, none, some, List, ◌∷◌, ◌++◌, all, is_space, Text, ◌==◌,
  if◌then◌else◌, get_elem?,
}
use falcon_link.CleansedLines.{CleansedLines}

-- IsBlankLine
unfoldable pub is_blank_line : Text → Bool
unfolding all is_space
is_blank_line line = all is_space line

-- The loop from `prevlinenum` down; inside, `none` is the answer ('', -1), outside it is an IndexError.
unfoldable pub previous_non_blank : List Text → ℕ → Option (Option (Text × ℕ))
unfolding is_blank_line
previous_non_blank elided zero = some none
previous_non_blank elided (suc prevlinenum) = elim (get_elem? elided prevlinenum) [
  | none ↦ none
  | some prevline ↦ elim (is_blank_line prevline) [
    | false ↦ some (some (prevline, prevlinenum))
    | true ↦ previous_non_blank elided prevlinenum
  ]
]

-- GetPreviousNonBlankLine
unfoldable pub get_previous_non_blank_line : CleansedLines → ℕ → Option (Option (Text × ℕ))
unfolding previous_non_blank
get_previous_non_blank_line clean_lines linenum = previous_non_blank clean_lines.elided linenum
