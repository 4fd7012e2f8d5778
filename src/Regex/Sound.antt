-- ===== src/Regex/Sound.antt =====
-- What a match means: a relation between the place before and the place behind it, and that the
-- matcher finds only such places.
use falcon_link.Prelude.{
  ℕ, zero, suc, ◌≡◌, refl, subst, ◌⊎◌, inl, inr, Bool, true, false, Option, none, some, [], ◌∷◌,
  arith, Text, ltb, Option-cases, none-ne-some, length,
}
use falcon_link.Regex.{
  Regex, empty, letter, seq, alt, star, lazy, group, start, finish, boundary, ahead, not_ahead,
  Cursor, advance, capture, Next, run, greedy, reluctant, step_letter, at_start, at_finish,
  at_boundary, match_start, Found, found, at,
}

-- Any number of rounds.
pub data Rounds (R : Cursor → Cursor → Type 0) : Cursor → Cursor → Type 0 where
  stop : {c : Cursor} → Rounds R c c
  round : {c m d : Cursor} → R c m → Rounds R m d → Rounds R c d

abbrev pub Matches : Regex → Cursor → Cursor → Type 0
Matches empty c d = c ≡ d
Matches (letter p) c d =
    (x : ℕ) × (r : Text) × (c.rest ≡ x ∷ r) × (p x ≡ true) × (advance c x r ≡ d)
Matches (seq a b) c d = (m : Cursor) × Matches a c m × Matches b m d
Matches (alt a b) c d = Matches a c d ⊎ Matches b c d
Matches (star r) c d = Rounds (Matches r) c d
Matches (lazy r) c d = Rounds (Matches r) c d
Matches (group i r) c d = (m : Cursor) × Matches r c m × (capture i c m ≡ d)
Matches start c d = (at_start c ≡ true) × (c ≡ d)
Matches finish c d = (at_finish c ≡ true) × (c ≡ d)
Matches boundary c d = (at_boundary c ≡ true) × (c ≡ d)
Matches (ahead r) c d = c ≡ d
Matches (not_ahead r) c d = c ≡ d

-- The continuation was reached at a place that the pattern matches up to.
abbrev pub Reached : (Cursor → Cursor → Type 0) → Next → Cursor → Cursor → Type 0
Reached R k c e = (d : Cursor) × R c d × (k d ≡ some e)

abbrev IsSound : (Cursor → Cursor → Type 0) → (Next → Cursor → Option Cursor) → Type 0
IsSound R m = (k : Next) (c e : Cursor) → m k c ≡ some e → Reached R k c e

abbrev pub guarded : Next → Cursor → Next
guarded k c d = elim (ltb (length d.rest) (length c.rest)) [ true ↦ k d | false ↦ none ]

-- A guarded continuation that succeeded passed its guard.
guarded-eq-some : (k : Next) (c d e : Cursor) → guarded k c d ≡ some e → k d ≡ some e
guarded-eq-some k c d e h = ground arith

-- A test that takes no letter.
test-IsSound :
    (b : Bool) (k : Next) (c e : Cursor)
    → elim b [ true ↦ k c | false ↦ none ] ≡ some e
    → (b ≡ true) × (k c ≡ some e)
test-IsSound b k c e h = ground arith

or_else-eq-some :
    (o : Option Cursor) (q : Option Cursor) (e : Cursor)
    → elim o [ some d ↦ some d | none ↦ q ] ≡ some e
    → (o ≡ some e) ⊎ (q ≡ some e)
or_else-eq-some none q e h = inr h
or_else-eq-some (some d) q e h = inl h

module _ (R : Cursor → Cursor → Type 0) (m : Next → Cursor → Option Cursor)
    (sound : IsSound R m) where
  greedy-IsSound : (n : ℕ) → IsSound (Rounds R) (greedy n m)
  unfolding greedy
  greedy-IsSound zero k c e h = (c, stop, h)
  greedy-IsSound (suc n) k c e h =
      elim (or_else-eq-some (m (guarded (greedy n m k) c) c) (k c) e h) [
        | inl on ↦
            let (d, first, went) = sound (guarded (greedy n m k) c) c e on in
            let (g, others, last) =
              greedy-IsSound n k d e (guarded-eq-some (greedy n m k) c d e went) in
            (g, round first others, last)
        | inr off ↦ (c, stop, off)
      ]

  reluctant-IsSound : (n : ℕ) → IsSound (Rounds R) (reluctant n m)
  unfolding reluctant
  reluctant-IsSound zero k c e h = (c, stop, h)
  reluctant-IsSound (suc n) k c e h =
      elim (or_else-eq-some (k c) (m (guarded (reluctant n m k) c) c) e h) [
        | inl off ↦ (c, stop, off)
        | inr on ↦
            let (d, first, went) = sound (guarded (reluctant n m k) c) c e on in
            let (g, others, last) =
              reluctant-IsSound n k d e (guarded-eq-some (reluctant n m k) c d e went) in
            (g, round first others, last)
      ]

step_letter-IsSound :
    (p : ℕ → Bool) (k : Next) (c e : Cursor) (t : Text)
    → c.rest ≡ t
    → step_letter p k c t ≡ some e
    → Reached (Matches (letter p)) k c e
unfolding step_letter
step_letter-IsSound p k c e [] q h = ground arith
step_letter-IsSound p k c e (x ∷ r) q h =
    let (t, went) = test-IsSound (p x) k (advance c x r) e h in
    (advance c x r, (x, r, q, t, refl), went)

ahead-eq-some :
    (o q : Option Cursor) (e : Cursor) → elim o [ some _ ↦ q | none ↦ none ] ≡ some e → q ≡ some e
ahead-eq-some o q e h = ground arith

not_ahead-eq-some :
    (o q : Option Cursor) (e : Cursor) → elim o [ some _ ↦ none | none ↦ q ] ≡ some e → q ≡ some e
not_ahead-eq-some o q e h = ground arith

-- Where the matcher succeeds, the pattern matches up to a place at which the continuation does.
pub run-IsSound : (r : Regex) → IsSound (Matches r) (run r)
unfolding run
run-IsSound empty k c e h = (c, refl, h)
run-IsSound (letter p) k c e h = step_letter-IsSound p k c e c.rest refl h
run-IsSound (seq a b) k c e h =
    let (m, ha, ka) = run-IsSound a (run b k) c e h in
    let (d, hb, kb) = run-IsSound b k m e ka in (d, (m, ha, hb), kb)
run-IsSound (alt a b) k c e h = elim (or_else-eq-some (run a k c) (run b k c) e h) [
  | inl l ↦ let (d, m, q) = run-IsSound a k c e l in (d, inl m, q)
  | inr l ↦ let (d, m, q) = run-IsSound b k c e l in (d, inr m, q)
]
run-IsSound (star r) k c e h =
    greedy-IsSound (Matches r) (run r) (run-IsSound r) (length c.rest) k c e h
run-IsSound (lazy r) k c e h =
    reluctant-IsSound (Matches r) (run r) (run-IsSound r) (length c.rest) k c e h
run-IsSound (group i r) k c e h =
    let (m, hm, km) = run-IsSound r (λ d. k (capture i c d)) c e h in
    (capture i c m, (m, hm, refl), km)
run-IsSound start k c e h = let (t, q) = test-IsSound (at_start c) k c e h in (c, (t, refl), q)
run-IsSound finish k c e h = let (t, q) = test-IsSound (at_finish c) k c e h in (c, (t, refl), q)
run-IsSound boundary k c e h =
    let (t, q) = test-IsSound (at_boundary c) k c e h in (c, (t, refl), q)
run-IsSound (ahead r) k c e h = (c, refl, ahead-eq-some (run r some c) (k c) e h)
run-IsSound (not_ahead r) k c e h = (c, refl, not_ahead-eq-some (run r some c) (k c) e h)

-- A match object comes from a place up to which the pattern matches, from the beginning of the text.
pub match_start-IsSound :
    (r : Regex) (s : Text) (m : Found)
    → match_start r s ≡ some m
    → (d : Cursor) × Matches r (at [] s) d × (found (at [] s) d ≡ m)
unfolding match_start
match_start-IsSound r s m h = elim (Option-cases (run r some (at [] s))) [
  | inl off ↦ let e : none ≡ some m = (rw (off, match_start) at h) in absurd (none-ne-some e)
  | inr (d, on) ↦
      let (e, k, q) = run-IsSound r some (at [] s) d on in
      let same : e ≡ d = cc in
      let here : some (found (at [] s) d) ≡ some m = (rw (on, match_start) at h) in
      (d, subst (Matches r (at [] s)) same k, cc)
]
