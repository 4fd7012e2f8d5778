-- ===== src/Regex/Remove.antt =====
-- Deleting the matches of a pattern makes no text longer.
use falcon_link.Prelude.{
  ℕ, zero, suc, ◌≤◌, ◌≡◌, ap, inl, inr, some, [], ◌∷◌, arith, Text, Option-cases, length,
}
use falcon_link.Regex.{Regex, run, at, Cursor, remove_go, remove_all}
use falcon_link.Regex.Sound.{run-IsSound}
use falcon_link.Regex.Spans.{Matches-length}

run-length :
    (r : Regex) (b s : Text) (d : Cursor) → run r some (at b s) ≡ some d → length d.rest ≤ length s
run-length r b s d h =
    let (e, m, q) = run-IsSound r some (at b s) d h in
    let same : e ≡ d = cc in
    omega (arith, Matches-length r (at b s) e m, ap (λ (u : Cursor). length u.rest) same)

remove_go-length : (n : ℕ) (r : Regex) (b s : Text) → length (remove_go n r b s) ≤ length s
unfolding remove_go
remove_go-length zero r b s = omega arith
remove_go-length (suc n) r b [] = omega arith
remove_go-length (suc n) r b (x ∷ s) = elim (Option-cases (run r some (at b (x ∷ s)))) [
  | inl off ↦ rw (off, remove_go) (omega (arith, remove_go-length n r (x ∷ b) s))
  | inr (d, on) ↦
      rw (on, remove_go)
        (omega (arith, remove_go-length n r d.before d.rest, run-length r b (x ∷ s) d on))
]

pub length-remove_all : (r : Regex) (s : Text) → length (remove_all r s) ≤ length s
unfolding remove_all
length-remove_all r s = remove_go-length (length s) r [] s
