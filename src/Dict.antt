-- ===== src/Dict.antt =====
-- Python's `dict` as an association list in insertion order, and `set` as a list with no item
-- twice. Keys are compared by an instance of `Key`.
use falcon_link.Prelude.{
  ℕ, ◌≡◌, refl, ◌↔◌, inl, inr, Bool, true, false, ◌||◌, Option, none, some, List, [], ◌∷◌, ◌++◌,
  arith, text_eq, Text, text_eq_iff, ◌==◌, if◌then◌else◌, ==_iff, Bool-cases,
}

-- Two keys are one key where the test says so.
pub record Key {ℓ} (K : Type ℓ) : Type ℓ where
  pub same : K → K → Bool
  pub same_iff : (j k : K) → (same j k ≡ true) ↔ (j ≡ k)

instance abbrev pub text_keys : Key Text
text_keys = record { same_iff = text_eq_iff; same = text_eq }

instance abbrev pub number_keys : Key ℕ
number_keys = record { same_iff = ==_iff; same = ◌==◌ }

-- Keys among which is None.
unfoldable pub option_same : Option Text → Option Text → Bool
option_same none none = true
option_same (some a) (some b) = text_eq a b
option_same _ _ = false

pub option_same_iff : (a b : Option Text) → (option_same a b ≡ true) ↔ (a ≡ b)
unfolding option_same
option_same_iff (some a) (some b) = ground (arith, text_eq_iff a b)
option_same_iff _ _ = ground arith

instance abbrev pub option_keys : Key (Option Text)
option_keys = record { same_iff = option_same_iff; same = option_same }

abbrev pub Dict {ℓ} : Type ℓ → Type ℓ → Type ℓ
Dict K V = List (K × V)

module _ {ℓ} {K V : Type ℓ} ⦃e : Key K⦄ where
  -- d.get(k)
  unfoldable pub get : Dict K V → K → Option V
  get [] k = none
  get ((j, v) ∷ d) k = if e.same j k then some v else get d k

  -- d[k] = v
  unfoldable pub put : Dict K V → K → V → Dict K V
  put [] k v = (k, v) ∷ []
  put ((j, w) ∷ d) k v = if e.same j k then (j, v) ∷ d else (j, w) ∷ put d k v

  pub get-put :
      (d : Dict K V) (k j : K) (v : V)
      → get (put d k v) j ≡ (if e.same k j then some v else get d j)
  unfolding get put
  get-put [] k j v = refl
  get-put ((i, w) ∷ d) k j v =
      ground (arith, e.same_iff i k, e.same_iff i j, e.same_iff k j, get-put d k j v)

module _ {ℓ} {A : Type ℓ} ⦃e : Key A⦄ where
  -- a in s
  unfoldable pub member : A → List A → Bool
  member a [] = false
  member a (x ∷ s) = e.same x a || member a s

  -- s.add(a)
  unfoldable pub add : A → List A → List A
  unfolding member
  add a s = if member a s then s else s ++ a ∷ []

  pub member-append : (a : A) (s t : List A) → member a (s ++ t) ≡ (member a s || member a t)
  unfolding member
  member-append a [] t = refl
  member-append a (x ∷ s) t = ground (arith, member-append a s t)

  pub member-add : (a b : A) (s : List A) → member b (add a s) ≡ (e.same a b || member b s)
  unfolding add member
  member-add a b s = elim (Bool-cases (e.same a b)) [
    | inl same ↦ ground (arith, e.same_iff a b, member-append b s (a ∷ []))
    | inr other ↦ ground (arith, member-append b s (a ∷ []))
  ]
