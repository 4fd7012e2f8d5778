-- ===== src/Includes/Extension.antt =====
-- When os.path.splitext gives the extension of a C++ header.
use falcon_link.Prelude.{
  ℕ, ◌-◌, ◌≡◌, refl, sym, ap, ◌∙◌, ◌≢◌, ◌↔◌, ◌⊎◌, inl, inr, Bool, true, false, not, List, [], ◌∷◌,
  ◌++◌, append_assoc, arith, all, codes, text_eq, Text, ◌==◌, if◌then◌else◌, ==_iff, ==_refl,
  Bool-cases, and_true, length, take, length-append, take-length,
}
use falcon_link.Dict.{member, text_keys}
use falcon_link.Includes.{split_last, path_splitext}

-- The letter is not in the text.
abbrev pub without : ℕ → Text → Bool
without c t = all (λ x. not (x == c)) t

pub split_last-append : (c : ℕ) (p : Text) → (split_last c p).0 ++ (split_last c p).1 ≡ p
unfolding split_last
split_last-append c [] = refl
split_last-append c (x ∷ t) = ground (arith, split_last-append c t)

split_last-without : (c : ℕ) (p : Text) → without c (split_last c p).1 ≡ true
unfolding split_last all
split_last-without c [] = refl
split_last-without c (x ∷ t) = ground (arith, split_last-without c t)

-- Empty, or with the letter at the end.
abbrev pub EndsWith : ℕ → Text → Type 0
EndsWith c t = (t ≡ []) ⊎ ((a : Text) × (t ≡ a ++ c ∷ []))

split_last-EndsWith : (c : ℕ) (p : Text) → EndsWith c (split_last c p).0
unfolding split_last
split_last-EndsWith c [] = inl refl
split_last-EndsWith c (x ∷ t) = go (split_last c t) (split_last-EndsWith c t)
  where
    go :
        (parts : Text × Text)
        → EndsWith c parts.0
        → EndsWith c
            (elim parts.0 as (λ h. Text × Text) [
              | [] ↦ if x == c then (x ∷ [], parts.1) else ([], x ∷ parts.1)
              | y ∷ ys ↦ (x ∷ y ∷ ys, parts.1)
            ]).0
    go ([], rest) h = elim (Bool-cases (x == c)) [
      | inl t ↦ let same : x ≡ c = (==_iff x c).0 t in rw t (inr ([], ap (λ (y : ℕ). y ∷ []) same))
      | inr f ↦ rw f (inl refl)
    ]
    go (y ∷ ys, rest) (inl e) = absurd (ground (arith, e))
    go (y ∷ ys, rest) (inr (a, e)) = inr (x ∷ a, ap (◌∷◌ x) e)

-- One more letter before a cut that has letters, or before one that has none.
cut_longer :
    (c x y : ℕ) (head t p : Text)
    → split_last c p ≡ (y ∷ head, t)
    → split_last c (x ∷ p) ≡ (x ∷ y ∷ head, t)
unfolding split_last
cut_longer c x y head t p e =
    let e0 = ap (λ (q : Text × Text). q.0) e in
    let e1 = ap (λ (q : Text × Text). q.1) e in
    rw (e0, split_last) (ap (λ (u : Text). (x ∷ y ∷ head, u)) e1)

cut_first :
    (c x : ℕ) (t p : Text)
    → split_last c p ≡ ([], t)
    → split_last c (x ∷ p) ≡ (if x == c then (x ∷ [], t) else ([], x ∷ t))
unfolding split_last
cut_first c x t p e =
    let e0 = ap (λ (q : Text × Text). q.0) e in
    let e1 = ap (λ (q : Text × Text). q.1) e in
    rw (e0, split_last)
      (ap (λ (u : Text). let r : Text × Text = if x == c then (x ∷ [], u) else ([], x ∷ u) in r) e1)

split_last-none : (c : ℕ) (t : Text) → without c t ≡ true → split_last c t ≡ ([], t)
unfolding split_last all
split_last-none c [] h = refl
split_last-none c (x ∷ t) h =
    let (hx, ht) = and_true (not (x == c)) (without c t) h in
    let off : x == c ≡ false = ground (arith, hx) in
    cut_first c x t t (split_last-none c t ht) ∙ rw off refl

split_last-found :
    (c : ℕ) (a t : Text) → without c t ≡ true → split_last c (a ++ c ∷ t) ≡ (a ++ c ∷ [], t)
split_last-found c [] t h = cut_first c c t t (split_last-none c t h) ∙ rw (==_refl c) refl
split_last-found c (x ∷ []) t h = cut_longer c x c [] t (c ∷ t) (split_last-found c [] t h)
split_last-found c (x ∷ y ∷ a) t h =
    cut_longer c x y (a ++ c ∷ []) t (y ∷ a ++ c ∷ t) (split_last-found c (y ∷ a) t h)

cut_at :
    (c : ℕ) (dir t : Text)
    → EndsWith c dir
    → without c t ≡ true
    → split_last c (dir ++ t) ≡ (dir, t)
cut_at c dir t (inl e) h = rw e (split_last-none c t h)
cut_at c dir t (inr (a, e)) h =
    ap (λ (d : Text). split_last c (d ++ t)) e
    ∙ ap (split_last c) (append_assoc a (c ∷ []) t)
    ∙ split_last-found c a t h
    ∙ ap (λ (d : Text). let r : Text × Text = (d, t) in r) (sym e)

without-front : (c : ℕ) (a t : Text) → without c (a ++ t) ≡ true → without c a ≡ true
unfolding all
without-front c [] t h = refl
without-front c (x ∷ a) t h = ground (arith, without-front c a t)

without-both :
    (c : ℕ) (a t : Text) → without c a ≡ true → without c t ≡ true → without c (a ++ t) ≡ true
unfolding all
without-both c [] t ha ht = ht
without-both c (x ∷ a) t ha ht = ground (arith, without-both c a t)

before_dot : (stem : Text) → take (length (stem ++ b'.' ∷ []) - 1) (stem ++ b'.' ∷ []) ≡ stem
before_dot stem =
    let size : length (stem ++ b'.' ∷ []) - 1 ≡ length stem =
      omega (arith, length-append {0} stem (b'.' ∷ [])) in
    rw size (take-length stem (b'.' ∷ []))

-- The extensions of headers that C alone does not have.
abbrev pub cpp_extensions : List Text
cpp_extensions = codes "hpp" ∷ codes "hxx" ∷ codes "h++" ∷ []

cpp_extensions-without :
    (ext : Text)
    → member ext cpp_extensions ≡ true
    → (without b'/' ext ≡ true) × (without b'.' ext ≡ true)
unfolding member all codes text_eq
cpp_extensions-without [] h = absurd (ground (arith, h))
cpp_extensions-without (a ∷ []) h = absurd (ground (arith, h))
cpp_extensions-without (a ∷ b ∷ []) h = absurd (ground (arith, h))
cpp_extensions-without (a ∷ b ∷ c ∷ []) h = (ground arith, ground arith)
cpp_extensions-without (a ∷ b ∷ c ∷ d ∷ t) h = absurd (ground (arith, h))

-- The last component of the path is a stem that does not consist of dots, a dot, and one of them.
abbrev pub HasCppExtension : Text → Type 0
HasCppExtension path =
    (dir : Text) × (stem : Text) × (ext : Text) × (path ≡ dir ++ (stem ++ b'.' ∷ ext))
    × EndsWith b'/' dir
    × (without b'/' stem ≡ true)
    × (all (λ c. c == b'.') stem ≡ false)
    × (member ext cpp_extensions ≡ true)

-- The test of _ClassifyInclude.
abbrev pub splits_off : Text → Bool
splits_off path = member (path_splitext path).1 (codes ".hpp" ∷ codes ".hxx" ∷ codes ".h++" ∷ [])

dotted_member :
    (ext : Text)
    → member (b'.' ∷ ext) (codes ".hpp" ∷ codes ".hxx" ∷ codes ".h++" ∷ [])
      ≡ member ext cpp_extensions
unfolding member codes text_eq
dotted_member ext = refl

splitext-parts :
    (path dir stem ext name : Text)
    → split_last b'/' path ≡ (dir, name)
    → split_last b'.' name ≡ (stem ++ b'.' ∷ [], ext)
    → all (λ c. c == b'.') stem ≡ false
    → (path_splitext path).1 ≡ b'.' ∷ ext
unfolding path_splitext
splitext-parts path dir stem ext name cut dot some_letter =
    let e1 = ap (λ (q : Text × Text). q.1) cut in
    let d0 = ap (λ (q : Text × Text). q.0) dot in
    let d1 = ap (λ (q : Text × Text). q.1) dot in
    rw (path_splitext, e1, d0, before_dot stem, some_letter) (ap (◌∷◌ b'.') d1)

splits_off-HasCppExtension : (path : Text) → HasCppExtension path → splits_off path ≡ true
unfolding all
splits_off-HasCppExtension path (dir, stem, ext, whole, slash, no_slash, letters, mem) =
    let (ext_slash, ext_dot) = cpp_extensions-without ext mem in
    let name = stem ++ b'.' ∷ ext in
    let clean : without b'/' name ≡ true = without-both b'/' stem (b'.' ∷ ext) no_slash ext_slash in
    let cut = ap (split_last b'/') whole ∙ cut_at b'/' dir name slash clean in
    let e =
      splitext-parts path dir stem ext name cut (split_last-found b'.' stem ext ext_dot) letters in
    ap (λ (t : Text). member t (codes ".hpp" ∷ codes ".hxx" ∷ codes ".h++" ∷ [])) e
    ∙ dotted_member ext
    ∙ mem

no_dot : (path : Text) → (split_last b'.' (split_last b'/' path).1).0 ≡ [] → splits_off path ≢ true
unfolding path_splitext all member text_eq codes
no_dot path e h = let k : false ≡ true = (rw (path_splitext, e) at h) in absurd (ground (arith, k))

dotted_name :
    (path stem : Text)
    → (split_last b'.' (split_last b'/' path).1).0 ≡ stem ++ b'.' ∷ []
    → splits_off path ≡ true
    → (all (λ c. c == b'.') stem ≡ false)
      × (member (split_last b'.' (split_last b'/' path).1).1 cpp_extensions ≡ true)
unfolding path_splitext member text_eq codes
dotted_name path stem e h = elim (Bool-cases (all (λ c. c == b'.') stem)) [
  | inl dots ↦
      let k : false ≡ true = (rw (path_splitext, e, before_dot stem, dots) at h) in
      absurd (ground (arith, k))
  | inr letters ↦ (
    letters,
    sym (dotted_member (split_last b'.' (split_last b'/' path).1).1)
        ∙ (rw (path_splitext, e, before_dot stem, letters) at h),
  )
]

HasCppExtension-splits_off : (path : Text) → splits_off path ≡ true → HasCppExtension path
HasCppExtension-splits_off path h =
    let name = (split_last b'/' path).1 in
    let dotted = (split_last b'.' name).0 in
    let after = (split_last b'.' name).1 in
    elim (split_last-EndsWith b'.' name) [
      | inl e ↦ absurd (no_dot path e h)
      | inr (stem, e) ↦
          let named : name ≡ stem ++ b'.' ∷ after =
            sym (split_last-append b'.' name)
            ∙ ap (λ (t : Text). t ++ after) e
            ∙ append_assoc stem (b'.' ∷ []) after in
          let (letters, mem) = dotted_name path stem e h in
          (
            (split_last b'/' path).0,
            stem,
            after,
            sym (split_last-append b'/' path) ∙ ap (◌++◌ (split_last b'/' path).0) named,
            split_last-EndsWith b'/' path,
            without-front b'/' stem (b'.' ∷ after)
                (sym (ap (without b'/') named) ∙ split_last-without b'/' path),
            letters,
            mem,
          )
    ]

pub splits_off_iff : (path : Text) → (splits_off path ≡ true) ↔ HasCppExtension path
splits_off_iff path = (HasCppExtension-splits_off path, splits_off-HasCppExtension path)
