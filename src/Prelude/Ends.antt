-- ===== src/Prelude/Ends.antt =====
-- The beginning and the end of a text.
use falcon_link.Prelude.{
  ℕ, ◌<◌, ◌≡◌, refl, sym, ap, ap₂, ◌∙◌, true, [], ◌∷◌, ◌++◌, reverse, reverse-append, arith,
  starts_with, ends_with, Text, ==_refl, length, get_or,
}
use mathlib.Core.List.{reverse-reverse}

pub starts_with-some : (s p : Text) → starts_with s p ≡ true → (r : Text) × (s ≡ p ++ r)
unfolding starts_with
starts_with-some s [] h = (s, refl)
starts_with-some [] (p ∷ ps) h = absurd (ground arith)
starts_with-some (c ∷ s) (p ∷ ps) h =
    let (r, e) = starts_with-some s ps (ground arith) in
    let q : c ≡ p = ground arith in (r, ap₂ (λ (x : ℕ) (y : Text). x ∷ y) q e)

pub ends_with-some : (s p : Text) → ends_with s p ≡ true → (r : Text) × (s ≡ r ++ p)
unfolding ends_with
ends_with-some s p h =
    let (r, e) = starts_with-some (reverse s) (reverse p) h in
    (
      reverse r,
      sym (reverse-reverse s)
          ∙ ap reverse e
          ∙ reverse-append (reverse p) r
          ∙ ap (λ (x : Text). reverse r ++ x) (reverse-reverse p),
    )

starts_with-append : (p t : Text) → starts_with (p ++ t) p ≡ true
unfolding starts_with
starts_with-append [] t = refl
starts_with-append (c ∷ p) t = rw (==_refl c) (starts_with-append p t)

pub ends_with-append : (t p : Text) → ends_with (t ++ p) p ≡ true
unfolding ends_with
ends_with-append t p = rw (reverse-append t p) (starts_with-append (reverse p) (reverse t))

pub get_or-length : (a b : Text) (x d : ℕ) → get_or (a ++ x ∷ b) (length a) d ≡ x
get_or-length [] b x d = refl
get_or-length (c ∷ a) b x d = get_or-length a b x d

-- A text with letters has a last one.
pub last_letter : (t : Text) → 0 < length t → (stem : Text) × (x : ℕ) × (t ≡ stem ++ x ∷ [])
last_letter [] h = absurd (omega arith)
last_letter (x ∷ []) h = ([], x, refl)
last_letter (x ∷ y ∷ t) h =
    let (stem, z, e) = last_letter (y ∷ t) (omega arith) in (x ∷ stem, z, ap (◌∷◌ x) e)
