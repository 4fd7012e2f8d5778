-- ===== src/Regex/Least.antt =====
-- How many letters a match takes at least, and how long its text and its last group may be.
use falcon_link.Prelude.{
  ℕ, ◌+◌, ◌≤◌, min, ◌≡◌, sym, ap, ◌∙◌, inl, inr, true, some, List, [], ◌∷◌, arith, Text, ==_refl,
  length,
}
use falcon_link.Regex.{
  Regex, empty, letter, seq, alt, star, lazy, group, start, finish, boundary, ahead, not_ahead,
  Cursor, between, Found, match_start, group_of, at,
}
use falcon_link.Regex.Sound.{Matches, match_start-IsSound}
use falcon_link.Regex.Spans.{groupless, Matches-groups, Matches-length, length-between}
use falcon_link.RawStrings.{group_text}

-- The letters that each match takes at least.
unfoldable pub least : Regex → ℕ
least empty = 0
least (letter p) = 1
least (seq a b) = least a + least b
least (alt a b) = min (least a) (least b)
least (star r) = 0
least (lazy r) = 0
least (group i r) = least r
least start = 0
least finish = 0
least boundary = 0
least (ahead r) = 0
least (not_ahead r) = 0

pub Matches-least :
    (r : Regex) (c d : Cursor) → Matches r c d → least r + length d.rest ≤ length c.rest
unfolding least
Matches-least empty c d h = rw h (omega arith)
Matches-least (letter p) c d (x, t, e, _, q) = rw (← q, e) (omega arith)
Matches-least (seq a b) c d (m, h, k) = omega (arith, Matches-least a c m h, Matches-least b m d k)
Matches-least (alt a b) c d (inl h) = omega (arith, Matches-least a c d h)
Matches-least (alt a b) c d (inr h) = omega (arith, Matches-least b c d h)
Matches-least (star r) c d h = omega (arith, Matches-length (star r) c d h)
Matches-least (lazy r) c d h = omega (arith, Matches-length (lazy r) c d h)
Matches-least (group i r) c d (m, h, q) = rw (← q) (Matches-least r c m h)
Matches-least start c d h = rw h.1 (omega arith)
Matches-least finish c d h = rw h.1 (omega arith)
Matches-least boundary c d h = rw h.1 (omega arith)
Matches-least (ahead r) c d h = rw h (omega arith)
Matches-least (not_ahead r) c d h = rw h (omega arith)

-- The match is part of the text, and no shorter than the least one.
pub hit_bounds :
    (r : Regex) (s : Text) (m : Found)
    → match_start r s ≡ some m
    → (least r ≤ length m.hit) × (length m.hit ≤ length s)
hit_bounds r s m h =
    let (d, k, same) = match_start-IsSound r s m h in
    let e = ap (λ (f : Found). length f.hit) same in
    let le = Matches-least r (at [] s) d k in
    let be = length-between (at [] s) d (Matches-length r (at [] s) d k) in
    (omega arith, omega arith)

-- The pattern ends in the group `k`, which leaves out `n` letters at least.
pub record EndsIn (k n : ℕ) (r : Regex) : Type 0 where
  pub last_in :
      (c d : Cursor)
      → Matches r c d
      → (x : Text) × (gs : List (ℕ × Text)) × (d.groups ≡ (k, x) ∷ gs)
        × (n + length x ≤ length c.rest)

here-last_in :
    (k : ℕ) (r : Regex) (c d : Cursor)
    → Matches (seq (group k r) finish) c d
    → (x : Text) × (gs : List (ℕ × Text)) × (d.groups ≡ (k, x) ∷ gs)
      × (0 + length x ≤ length c.rest)
here-last_in k r c d (m', (m, h, q), fin) =
    let e = ap (λ (u : Cursor). u.groups) q in
    let f = ap (λ (u : Cursor). u.groups) fin.1 in
    (between c m, m.groups, cc, omega (arith, length-between c m (Matches-length r c m h)))

pub ends_here : (k : ℕ) (r : Regex) → EndsIn k 0 (seq (group k r) finish)
ends_here k r = record { last_in = here-last_in k r }

before-last_in :
    (k : ℕ) (r b : Regex)
    → groupless b ≡ true
    → (c d : Cursor) → Matches (seq (group k r) b) c d
    → (x : Text) × (gs : List (ℕ × Text)) × (d.groups ≡ (k, x) ∷ gs)
      × (least b + length x ≤ length c.rest)
before-last_in k r b g c d (m', (m, h, q), f) =
    let le = Matches-length r c m h in
    let rests : m.rest ≡ m'.rest = ap (λ (u : Cursor). u.rest) q in
    (
      between c m,
      m.groups,
      Matches-groups b g m' d f ∙ sym (ap (λ (u : Cursor). u.groups) q),
      omega (arith, length-between c m le, le, ap (length {0}) rests, Matches-least b m' d f),
    )

pub ends_before :
    (k : ℕ) (r b : Regex) → groupless b ≡ true → EndsIn k (least b) (seq (group k r) b)
ends_before k r b g = record { last_in = before-last_in k r b g }

behind-last_in :
    (a : Regex) {k : ℕ} (n : ℕ) {r : Regex}
    → EndsIn k n r
    → (c d : Cursor) → Matches (seq a r) c d
    → (x : Text) × (gs : List (ℕ × Text)) × (d.groups ≡ (k, x) ∷ gs)
      × (least a + n + length x ≤ length c.rest)
behind-last_in a n h c d (m, ha, hr) =
    let (x, gs, g, le) = h.last_in m d hr in (x, gs, g, omega (arith, Matches-least a c m ha))

pub ends_behind :
    (a : Regex) {k : ℕ} (n : ℕ) {r : Regex} → EndsIn k n r → EndsIn k (least a + n) (seq a r)
ends_behind a n h = record { last_in = behind-last_in a n h }

group-head :
    (m : Found) (k : ℕ) (x : Text) (gs : List (ℕ × Text))
    → m.groups ≡ (k, x) ∷ gs
    → group_text m k ≡ x
unfolding group_of
group-head m k x gs q = rw (q, group_of) (rw (==_refl k))

-- The last group of a match leaves out that many letters of the text.
pub last_group :
    {k n : ℕ} (r : Regex) (s : Text) (m : Found)
    → EndsIn k n r
    → match_start r s ≡ some m
    → n + length (group_text m k) ≤ length s
unfolding group_of
last_group {k} {n} r s m h e =
    let (d, i, same) = match_start-IsSound r s m e in
    let (x, gs, g, le) = h.last_in (at [] s) d i in
    let q : m.groups ≡ (k, x) ∷ gs = ap (λ (f : Found). f.groups) (sym same) ∙ g in
    let t : group_text m k ≡ x = group-head m k x gs q in omega (arith, ap (length {0}) t)
