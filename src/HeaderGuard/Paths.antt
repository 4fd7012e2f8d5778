-- ===== src/HeaderGuard/Paths.antt =====
-- PathSplitToList ends: each round makes the path shorter.
use falcon_link.Prelude.{
  ℕ, zero, suc, ◌+◌, ◌≤◌, ◌<◌, ◌≡◌, refl, sym, ap, ◌∙◌, ◌≢◌, ◌⊎◌, inl, inr, Bool, true, false, some,
  List, [], ◌∷◌, ◌++◌, reverse, append-nil, reverse-append, arith, all, text_eq, Text, text_eq_iff,
  ◌==◌, if◌then◌else◌, Bool-cases, length, length-append, List-cases, length-reverse,
}
use mathlib.Core.List.{reverse-reverse}
use falcon_link.Includes.{path_split, drop_slashes, split_last}
use falcon_link.Includes.Extension.{split_last-append}
use falcon_link.HeaderGuard.{path_split_loop, path_split_to_list}

drop_slashes-length : (t : Text) → length (drop_slashes t) ≤ length t
unfolding drop_slashes
drop_slashes-length [] = omega arith
drop_slashes-length (c ∷ t) = ground (arith, drop_slashes-length t)

drop_slashes-shorter : (t : Text) → (drop_slashes t ≡ t) ⊎ (length (drop_slashes t) < length t)
unfolding drop_slashes
drop_slashes-shorter [] = inl refl
drop_slashes-shorter (c ∷ t) = elim (Bool-cases (c == b'/')) [
  | inl slash ↦ inr (rw slash (let le = drop_slashes-length t in omega arith))
  | inr other ↦ inl (rw other refl)
]

-- The head without its slashes at the end, unless it is made of them.
trimmed-shorter :
    (b : Bool) (h : Text)
    → ((if b then h else reverse (drop_slashes (reverse h))) ≡ h)
      ⊎ (length (if b then h else reverse (drop_slashes (reverse h))) < length h)
trimmed-shorter true h = inl refl
trimmed-shorter false h = elim (drop_slashes-shorter (reverse h)) [
  | inl e ↦ inl (rw e (reverse-reverse h))
  | inr lt ↦
      inr (omega (arith, lt, length-reverse {0} (drop_slashes (reverse h)), length-reverse {0} h))
]

split-shorter : (p : Text) → ((split_last b'/' p).0 ≡ p) ⊎ (length (split_last b'/' p).0 < length p)
split-shorter p =
    let h = (split_last b'/' p).0 in
    let whole = split_last-append b'/' p in
    elim (List-cases (split_last b'/' p).1) [
      | inl e ↦ inl (sym (append-nil h) ∙ ap (λ (u : Text). h ++ u) (sym e) ∙ whole)
      | inr (c, r, e) ↦
          let sum : length h + length (split_last b'/' p).1 ≡ length p =
            sym (length-append {0} h (split_last b'/' p).1) ∙ ap length whole in
          inr (let more : length (split_last b'/' p).1 ≡ suc (length r) = rw e refl in omega arith)
    ]

-- The head of a path is the path, or is shorter.
path_split-shorter : (p : Text) → ((path_split p).0 ≡ p) ⊎ (length (path_split p).0 < length p)
unfolding path_split
path_split-shorter p =
    let h = (split_last b'/' p).0 in
    elim (trimmed-shorter (all (λ c. c == b'/') h) h) [
      | inl e ↦ elim (split-shorter p) [ inl same ↦ inl (e ∙ same) | inr lt ↦ inr (rw e lt) ]
      | inr less ↦ elim (split-shorter p) [
        | inl same ↦ let q = ap length same in inr (omega (arith, less, q))
        | inr lt ↦ inr (omega (arith, less, lt))
      ]
    ]

reverse-ne-nil : (lst : List Text) (t : Text) → reverse (lst ++ t ∷ []) ≢ []
reverse-ne-nil lst t e =
    let q : reverse (lst ++ t ∷ []) ≡ t ∷ reverse lst = reverse-append lst (t ∷ []) in
    absurd (ground (arith, e, q))

path_split_loop-Returns :
    (fuel : ℕ) (path : Text) (lst : List Text)
    → length path < fuel
    → (out : List Text) × (path_split_loop fuel path lst ≡ some out) × (out ≢ [])
unfolding path_split_loop
path_split_loop-Returns zero path lst lt = absurd (omega arith)
path_split_loop-Returns (suc fuel) path lst lt =
    let head = (path_split path).0 in
    let tail = (path_split path).1 in
    elim (Bool-cases (text_eq head path)) [
      | inl a ↦ (reverse (lst ++ head ∷ []), rw (a, path_split_loop) refl, reverse-ne-nil lst head)
      | inr a ↦ elim (Bool-cases (text_eq tail path)) [
        | inl b ↦
            (reverse (lst ++ tail ∷ []), rw (a, b, path_split_loop) refl, reverse-ne-nil lst tail)
        | inr b ↦ elim (path_split-shorter path) [
          | inl e ↦ absurd (ground (arith, a, (text_eq_iff head path).1 e))
          | inr less ↦
              rw (a, b, path_split_loop)
                (path_split_loop-Returns fuel head (lst ++ tail ∷ []) (omega (arith, less, lt)))
        ]
      ]
    ]

-- PathSplitToList ends on every path, and gives one component at least.
pub path_split_to_list-Returns :
    (path : Text) → (out : List Text) × (path_split_to_list path ≡ some out) × (out ≢ [])
unfolding path_split_to_list
path_split_to_list-Returns path = path_split_loop-Returns (length path + 1) path [] (omega arith)
