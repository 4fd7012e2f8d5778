-- ===== src/Regex/Spans.antt =====
-- What every match keeps: it never goes back, and only a pattern with groups sets groups.
use falcon_link.Prelude.{
  ℕ, zero, suc, ◌+◌, ◌-◌, ◌≤◌, ◌≡◌, refl, sym, ap, ap₂, ◌∙◌, inl, inr, Bool, true, false, ◌&&◌,
  List, [], ◌∷◌, ◌++◌, arith, all, Text, and_true, length, take, length-append, length-take,
}
use falcon_link.Regex.{
  Regex, empty, letter, seq, alt, star, lazy, group, start, finish, boundary, ahead, not_ahead,
  Cursor, between,
}
use falcon_link.Regex.Sound.{Rounds, stop, round, Matches}

abbrev Shrinks : Cursor → Cursor → Type 0
Shrinks c d = length d.rest ≤ length c.rest

Rounds-Shrinks :
    (R : Cursor → Cursor → Type 0)
    → ((c d : Cursor) → R c d → Shrinks c d)
    → {c d : Cursor} → Rounds R c d
    → Shrinks c d
Rounds-Shrinks R h stop = omega arith
Rounds-Shrinks R h (round {c} {m} {d} r rs) = omega (arith, h c m r, Rounds-Shrinks R h rs)

-- A match never leaves more text than there was.
pub Matches-length : (r : Regex) (c d : Cursor) → Matches r c d → length d.rest ≤ length c.rest
Matches-length empty c d h = rw h (omega arith)
Matches-length (letter p) c d (x, t, e, _, q) = rw (← q, e) (omega arith)
Matches-length (seq a b) c d (m, h, k) =
    omega (arith, Matches-length a c m h, Matches-length b m d k)
Matches-length (alt a b) c d (inl h) = Matches-length a c d h
Matches-length (alt a b) c d (inr h) = Matches-length b c d h
Matches-length (star r) c d h = Rounds-Shrinks (Matches r) (Matches-length r) h
Matches-length (lazy r) c d h = Rounds-Shrinks (Matches r) (Matches-length r) h
Matches-length (group i r) c d (m, h, q) = rw (← q) (Matches-length r c m h)
Matches-length start c d h = rw h.1 (omega arith)
Matches-length finish c d h = rw h.1 (omega arith)
Matches-length boundary c d h = rw h.1 (omega arith)
Matches-length (ahead r) c d h = rw h (omega arith)
Matches-length (not_ahead r) c d h = rw h (omega arith)

-- A letter is one letter.
pub letter-length :
    (p : ℕ → Bool) (c d : Cursor)
    → Matches (letter p) c d
    → (length c.rest ≡ suc (length d.rest)) × (d.groups ≡ c.groups)
letter-length p c d (x, t, e, _, q) = (rw (e, ← q) refl, rw (← q) refl)

-- The pattern has no group.
abbrev pub groupless : Regex → Bool
groupless empty = true
groupless (letter p) = true
groupless (seq a b) = groupless a && groupless b
groupless (alt a b) = groupless a && groupless b
groupless (star r) = groupless r
groupless (lazy r) = groupless r
groupless (group i r) = false
groupless start = true
groupless finish = true
groupless boundary = true
groupless (ahead r) = true
groupless (not_ahead r) = true

Rounds-groups :
    (R : Cursor → Cursor → Type 0)
    → ((c d : Cursor) → R c d → d.groups ≡ c.groups)
    → {c d : Cursor} → Rounds R c d
    → d.groups ≡ c.groups
Rounds-groups R h stop = refl
Rounds-groups R h (round {c} {m} {d} r rs) = Rounds-groups R h rs ∙ h c m r

pub Matches-groups :
    (r : Regex) → groupless r ≡ true → (c d : Cursor) → Matches r c d → d.groups ≡ c.groups
Matches-groups empty g c d h = rw h
Matches-groups (letter p) g c d h = (letter-length p c d h).1
Matches-groups (seq a b) g c d (m, h, k) =
    let (ga, gb) = and_true (groupless a) (groupless b) g in
    Matches-groups b gb m d k ∙ Matches-groups a ga c m h
Matches-groups (alt a b) g c d (inl h) =
    Matches-groups a (and_true (groupless a) (groupless b) g).0 c d h
Matches-groups (alt a b) g c d (inr h) =
    Matches-groups b (and_true (groupless a) (groupless b) g).1 c d h
Matches-groups (star r) g c d h = Rounds-groups (Matches r) (Matches-groups r g) h
Matches-groups (lazy r) g c d h = Rounds-groups (Matches r) (Matches-groups r g) h
Matches-groups (group i r) g c d h = absurd (true-ne-false g)
  where
    true-ne-false : false ≡ true → ⊥
    true-ne-false e = cc
Matches-groups start g c d h = rw h.1
Matches-groups finish g c d h = rw h.1
Matches-groups boundary g c d h = rw h.1
Matches-groups (ahead r) g c d h = rw h
Matches-groups (not_ahead r) g c d h = rw h

-- A captured text is as long as what was read.
pub length-between :
    (c d : Cursor)
    → length d.rest ≤ length c.rest
    → length (between c d) + length d.rest ≡ length c.rest
length-between c d h = omega (arith, length-take {0} (length c.rest - length d.rest) c.rest)

-- What repeated letters read are letters of the class.
pub Rounds-letters :
    (p : ℕ → Bool) {c d : Cursor}
    → Rounds (Matches (letter p)) c d
    → (t : Text) × (c.rest ≡ t ++ d.rest) × (all p t ≡ true)
unfolding all
Rounds-letters p stop = ([], refl, refl)
Rounds-letters p (round {c} {m} {d} (x, r, e, px, q) rs) =
    let (t, f, h) = Rounds-letters p rs in
    (x ∷ t, e ∙ ap (◌∷◌ x) (ap (λ (u : Cursor). u.rest) q ∙ f), rw (px, h))

take_all : (xs ys : Text) (n : ℕ) → n ≡ length xs → take n (xs ++ ys) ≡ xs
take_all [] ys zero e = refl
take_all [] ys (suc n) e = absurd (omega arith)
take_all (x ∷ xs) ys zero e = absurd (omega arith)
take_all (x ∷ xs) ys (suc n) e = ap (◌∷◌ x) (take_all xs ys n (omega arith))

pub between-append : (c d : Cursor) (t : Text) → c.rest ≡ t ++ d.rest → between c d ≡ t
between-append c d t e = rw e (
    take_all t d.rest (length (t ++ d.rest) - length d.rest)
      (omega (arith, length-append {0} t d.rest)))

-- A group of repeated letters holds letters of the class.
pub group_letters :
    (i : ℕ) (p : ℕ → Bool) (c d : Cursor)
    → Matches (group i (star (letter p))) c d
    → (t : Text) × (d.groups ≡ (i, t) ∷ c.groups)
      × (length t + length d.rest ≡ length c.rest)
      × (all p t ≡ true)
group_letters i p c d (m, h, e) =
    let (t, f, q) = Rounds-letters p h in
    (
      t,
      sym (ap (λ (u : Cursor). u.groups) e)
          ∙ ap₂ (λ (u : Text) (g : List (ℕ × Text)). (i, u) ∷ g) (between-append c m t f)
              (Matches-groups (star (letter p)) refl c m h),
      omega (
        arith,
        ap (λ (u : Cursor). length u.rest) e,
        ap (length {0}) f,
        length-append {0} t m.rest,
      ),
      q,
    )

-- The text of a group, and the place behind it.
pub group_facts :
    (i : ℕ) (r : Regex) (c d : Cursor)
    → groupless r ≡ true
    → Matches (group i r) c d
    → (t : Text) × (d.groups ≡ (i, t) ∷ c.groups) × (length t + length d.rest ≡ length c.rest)
group_facts i r c d g (m, h, e) = (
  between c m,
  sym (ap (λ (u : Cursor). u.groups) e) ∙ ap (◌∷◌ (i, between c m)) (Matches-groups r g c m h),
  omega (arith, ap (λ (u : Cursor). length u.rest) e, length-between c m (Matches-length r c m h)),
)
