-- ===== src/Regex/Replace.antt =====
-- `pattern.sub(rep, s)` with a text that names no group, and `pattern.finditer(s)`.
use falcon_link.Prelude.{ℕ, zero, suc, none, some, List, [], ◌∷◌, ◌++◌, Text, length}
use falcon_link.Regex.{Regex, Found, run, at, found}

-- For a pattern that never matches the empty text; the fuel is the letters left.
pub replace_go : ℕ → Regex → Text → Text → Text → Text
unfolding run
replace_go zero r rep b s = s
replace_go (suc n) r rep b [] = []
replace_go (suc n) r rep b (x ∷ s) = elim (run r some (at b (x ∷ s))) [
  | some d ↦ rep ++ replace_go n r rep d.before d.rest
  | none ↦ x ∷ replace_go n r rep (x ∷ b) s
]

-- ReplaceAll
unfoldable pub replace_all : Regex → Text → Text → Text
unfolding replace_go run
replace_all r rep s = replace_go (length s) r rep [] s

-- pattern.finditer(s), for a pattern that never matches the empty text
find_all_go : ℕ → Regex → Text → Text → List Found
unfolding run
find_all_go zero r b s = []
find_all_go (suc n) r b [] = []
find_all_go (suc n) r b (x ∷ s) = elim (run r some (at b (x ∷ s))) [
  | some d ↦ found (at b (x ∷ s)) d ∷ find_all_go n r d.before d.rest
  | none ↦ find_all_go n r (x ∷ b) s
]

unfoldable pub find_all : Regex → Text → List Found
unfolding find_all_go run
find_all r s = find_all_go (length s) r [] s
