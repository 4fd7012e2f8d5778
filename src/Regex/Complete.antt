-- ===== src/Regex/Complete.antt =====
-- Where the matcher is sure to succeed: for the repetitions of letters that the linter's patterns use.
use falcon_link.Prelude.{
  ℕ, zero, suc, ◌≤◌, ◌<◌, ◌≡◌, refl, ap, ◌∙◌, ◌⊎◌, inl, inr, Bool, true, Option, none, some, [],
  ◌∷◌, ◌++◌, arith, all, Text, and_true, none-ne-some, length,
}
use falcon_link.Regex.{
  Regex, letter, star, Cursor, Next, advance, run, greedy, step_letter, finish, at_finish,
}
use falcon_link.Regex.Sound.{Rounds, stop, round, Matches, guarded}

-- The matcher succeeds.
abbrev pub Succeeds : Option Cursor → Type 0
Succeeds o = (e : Cursor) × (o ≡ some e)

or_else-Succeeds :
    (o q : Option Cursor)
    → Succeeds o ⊎ Succeeds q
    → Succeeds (elim o [ some d ↦ some d | none ↦ q ])
or_else-Succeeds (some d) q h = (d, refl)
or_else-Succeeds none q (inl (e, h)) = absurd (none-ne-some h)
or_else-Succeeds none q (inr h) = h

-- No round at all is one way to match a repetition.
pub greedy-here :
    (n : ℕ) (m : Next → Cursor → Option Cursor) (k : Next) (c : Cursor)
    → Succeeds (k c)
    → Succeeds (greedy n m k c)
unfolding greedy
greedy-here zero m k c h = h
greedy-here (suc n) m k c h = or_else-Succeeds _ (k c) (inr h)

pub star-here : (r : Regex) (k : Next) (c : Cursor) → Succeeds (k c) → Succeeds (run (star r) k c)
unfolding run
star-here r k c h = greedy-here (length c.rest) (run r) k c h

pub letter-Succeeds :
    (p : ℕ → Bool) (k : Next) (c : Cursor) (x : ℕ) (t : Text)
    → c.rest ≡ x ∷ t
    → p x ≡ true
    → run (letter p) k c ≡ k (advance c x t)
unfolding run step_letter
letter-Succeeds p k c x t e h = rw (e, run, step_letter, h)

guard_passes : (k : Next) (c d : Cursor) → length d.rest < length c.rest → guarded k c d ≡ k d
guard_passes k c d lt = ground arith

greedy-round :
    (p : ℕ → Bool) (n : ℕ) (k : Next) (c : Cursor) (x : ℕ) (t : Text)
    → c.rest ≡ x ∷ t
    → p x ≡ true
    → Succeeds (greedy n (run (letter p)) k (advance c x t))
    → Succeeds (greedy (suc n) (run (letter p)) k c)
unfolding greedy
greedy-round p n k c x t e h (f, q) = or_else-Succeeds _ (k c) (
    inl (
      f,
      letter-Succeeds p (guarded (greedy n (run (letter p)) k) c) c x t e h
          ∙ guard_passes (greedy n (run (letter p)) k) c (advance c x t) (rw e (omega arith))
          ∙ q,
    ))

-- Letters that the class holds, one after the other, are a way to match its repetition.
pub letters-Succeeds :
    (p : ℕ → Bool) (n : ℕ) (k : Next) {c d : Cursor}
    → Rounds (Matches (letter p)) c d
    → length c.rest ≤ n
    → Succeeds (k d)
    → Succeeds (greedy n (run (letter p)) k c)
letters-Succeeds p n k {c} stop le h = greedy-here n (run (letter p)) k c h
letters-Succeeds p zero k {c} (round (x, t, e, _, _) rs) le h =
    absurd (omega (arith, ap (length {0}) e))
letters-Succeeds p (suc n) k {c} {d} (round {m} (x, t, e, yes_x, q) rs) le h =
    greedy-round p n k c x t e yes_x (
      rw q (
        letters-Succeeds p n k rs
          (omega (arith, ap (length {0}) e, ap (λ (u : Cursor). length u.rest) q)) h))

pub star-letters :
    (p : ℕ → Bool) (k : Next) {c d : Cursor}
    → Rounds (Matches (letter p)) c d
    → Succeeds (k d)
    → Succeeds (run (star (letter p)) k c)
unfolding run
star-letters p k {c} rs h = letters-Succeeds p (length c.rest) k rs (omega arith) h

-- The place behind some letters of the text.
abbrev pub skip : Cursor → Text → Text → Cursor
skip c [] rest = c
skip c (x ∷ xs) rest = skip (advance c x (xs ++ rest)) xs rest

pub skip-rest : (c : Cursor) (xs rest : Text) → c.rest ≡ xs ++ rest → (skip c xs rest).rest ≡ rest
skip-rest c [] rest e = e
skip-rest c (x ∷ xs) rest e = skip-rest (advance c x (xs ++ rest)) xs rest refl

pub skip-Rounds :
    (p : ℕ → Bool) (c : Cursor) (xs rest : Text)
    → c.rest ≡ xs ++ rest
    → all p xs ≡ true
    → Rounds (Matches (letter p)) c (skip c xs rest)
unfolding all
skip-Rounds p c [] rest e h = stop
skip-Rounds p c (x ∷ xs) rest e h =
    let (hx, hs) = and_true (p x) (all p xs) h in
    round (x, xs ++ rest, e, hx, refl) (skip-Rounds p (advance c x (xs ++ rest)) xs rest refl hs)

at_finish_nil : (c : Cursor) → c.rest ≡ [] → at_finish c ≡ true
unfolding at_finish
at_finish_nil c e = rw (e, at_finish)

-- `$` holds at the end of the text.
pub finish-Succeeds : (c : Cursor) → c.rest ≡ [] → Succeeds (run finish some c)
unfolding run
finish-Succeeds c e = let q = at_finish_nil c e in (c, rw (q, run))
