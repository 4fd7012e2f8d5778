-- ===== src/Prelude/Strings.antt =====
-- The operations of Python's `str` that the linter calls. A text is the list of its code points.
use Prim.Native.Char.{code}
use Prim.Native.Nat.{ℕ, zero, suc, ◌+◌, ◌-◌, ◌/◌, ◌%◌, ◌≤◌}
use Prim.Native.String.{String}
use mathlib.Core.Path.{◌≡◌, refl, sym, ap, ◌∙◌}
use mathlib.Core.Logic.{◌↔◌, inl, inr}
use mathlib.Core.Bool.{Bool, true, false, not, ◌&&◌, ◌||◌}
use mathlib.Core.Option
use mathlib.Core.Option.{Option, none, some}
use mathlib.Core.List.{List, [], ◌∷◌, ◌++◌, map, reverse, append-nil, append_assoc, reverse-append}
use native.Mathlib.Omega.{arith}
use falcon_link.Prelude.Tests.{ltb, leb, ◌==◌, if◌then◌else◌, Bool-cases}
use falcon_link.Prelude.Lists.{length, drop, all}

abbrev pub Text : Type 0
Text = List ℕ

-- A literal. It is shut, so that a proof sees a name and not its letters.
unfoldable pub codes : String → Text
codes String.[] = []
codes (String.◌∷◌ c s) = code c ∷ codes s

-- a == b
unfoldable pub text_eq : Text → Text → Bool
text_eq [] [] = true
text_eq (x ∷ xs) (y ∷ ys) = x == y && text_eq xs ys
text_eq _ _ = false

pub text_eq_iff : (a b : Text) → (text_eq a b ≡ true) ↔ (a ≡ b)
unfolding text_eq
text_eq_iff (x ∷ a) (y ∷ b) = ground (arith, text_eq_iff a b)
text_eq_iff _ _ = ground arith

pub text_eq_refl : (a : Text) → text_eq a a ≡ true
text_eq_refl a = (text_eq_iff a a).1 refl

-- a < b, by code points
unfoldable pub text_lt : Text → Text → Bool
text_lt [] [] = false
text_lt [] (y ∷ ys) = true
text_lt (x ∷ xs) [] = false
text_lt (x ∷ xs) (y ∷ ys) = ltb x y || (x == y && text_lt xs ys)

-- s.startswith(p)
unfoldable pub starts_with : Text → Text → Bool
starts_with s [] = true
starts_with [] (p ∷ ps) = false
starts_with (c ∷ s) (p ∷ ps) = c == p && starts_with s ps

pub starts_with-length : (s p : Text) → starts_with s p ≡ true → length p ≤ length s
unfolding starts_with
starts_with-length s [] h = omega arith
starts_with-length [] (p ∷ ps) h = ground arith
starts_with-length (c ∷ s) (p ∷ ps) h = ground (arith, starts_with-length s ps)

-- s.endswith(p)
unfoldable pub ends_with : Text → Text → Bool
unfolding starts_with
ends_with s p = starts_with (reverse s) (reverse p)

-- s.find(p); `none` is -1.
unfoldable pub find : Text → Text → Option ℕ
unfolding starts_with
find [] p = if starts_with [] p then some 0 else none
find (c ∷ s) p = if starts_with (c ∷ s) p then some 0 else Option.map suc (find s p)

-- s.find(p, from), for a position inside the text
unfoldable pub find_from : Text → Text → ℕ → Option ℕ
unfolding find
find_from s p start = Option.map (λ i. i + start) (find (drop start s) p)

-- The places of `s`, with no overlap, where `p` stands; `skip` letters belong to the last one.
count_go : Text → ℕ → Text → ℕ
count_go p skip [] = 0
count_go p (suc skip) (c ∷ s) = count_go p skip s
count_go p zero (c ∷ s) =
    let hit = starts_with (c ∷ s) p in
    (if hit then 1 else 0) + count_go p (if hit then length p - 1 else 0) s

-- s.count(p), for a `p` that is not empty
unfoldable pub count : Text → Text → ℕ
unfolding count_go starts_with
count s p = count_go p 0 s

replace_go : Text → Text → ℕ → Text → Text
replace_go p r skip [] = []
replace_go p r (suc skip) (c ∷ s) = replace_go p r skip s
replace_go p r zero (c ∷ s) =
    let hit = starts_with (c ∷ s) p in
    (if hit then r else c ∷ []) ++ replace_go p r (if hit then length p - 1 else 0) s

-- s.replace(p, r), for a `p` that is not empty
unfoldable pub replace : Text → Text → Text → Text
unfolding replace_go starts_with
replace s p r = replace_go p r 0 s

-- c.isspace(), which is `\s` of a regular expression too
unfoldable pub is_space : ℕ → Bool
is_space c =
    (leb 9 c && leb c 13)
    || (leb 28 c && leb c 32)
    || c == 0x85
    || c == 0xa0
    || c == 0x1680
    || (leb 0x2000 c && leb c 0x200a)
    || c == 0x2028
    || c == 0x2029
    || c == 0x202f
    || c == 0x205f
    || c == 0x3000

-- s.lstrip()
unfoldable pub lstrip : Text → Text
unfolding is_space
lstrip [] = []
lstrip (c ∷ s) = if is_space c then lstrip s else c ∷ s

-- s.rstrip()
unfoldable pub rstrip : Text → Text
unfolding lstrip
rstrip s = reverse (lstrip (reverse s))

-- s.strip()
unfoldable pub strip : Text → Text
unfolding lstrip rstrip
strip s = rstrip (lstrip s)

split_go : ℕ → Text → Text → List Text
split_go sep piece [] = reverse piece ∷ []
split_go sep piece (c ∷ s) =
    if c == sep then reverse piece ∷ split_go sep [] s else split_go sep (c ∷ piece) s

-- s.split(sep), for a separator of one letter
unfoldable pub split : Text → ℕ → List Text
unfolding split_go
split s sep = split_go sep [] s

-- The text up to the first separator.
pub up_to : ℕ → Text → Text
up_to sep [] = []
up_to sep (c ∷ s) = if c == sep then [] else c ∷ up_to sep s

split_go-first :
    (sep : ℕ) (piece s : Text)
    → (rest : List Text) × (split_go sep piece s ≡ (reverse piece ++ up_to sep s) ∷ rest)
unfolding split_go up_to
split_go-first sep piece [] = ([], ap (λ (t : Text). t ∷ []) (sym (append-nil (reverse piece))))
split_go-first sep piece (c ∷ s) = elim (Bool-cases (c == sep)) [
  | inl t ↦ (
    split_go sep [] s,
    rw t (ap (λ (u : Text). u ∷ split_go sep [] s) (sym (append-nil (reverse piece)))),
  )
  | inr f ↦
      let (rest, e) = split_go-first sep (c ∷ piece) s in
      (
        rest,
        rw f (
            e
            ∙ ap (λ (u : Text). u ∷ rest)
                (ap (λ (u : Text). u ++ up_to sep s) (reverse-append (c ∷ []) piece)
                  ∙ append_assoc (reverse piece) (c ∷ []) (up_to sep s))),
      )
]

-- The first piece is the text up to the first separator.
pub split-first : (s : Text) (sep : ℕ) → (rest : List Text) × (split s sep ≡ up_to sep s ∷ rest)
unfolding split
split-first s sep = split_go-first sep [] s

-- The text up to the first letter `sep` is the key exactly if the key has none, and the text is the
-- key, or begins with the key and that letter.
pub up_to-eq :
    (sep : ℕ) (s k : Text)
    → text_eq (up_to sep s) k
      ≡ (all (λ c. not (c == sep)) k && (text_eq s k || starts_with s (k ++ sep ∷ [])))
unfolding up_to text_eq starts_with all
up_to-eq sep [] [] = refl
up_to-eq sep [] (y ∷ k) = ground arith
up_to-eq sep (x ∷ s) [] = ground arith
up_to-eq sep (x ∷ s) (y ∷ k) = ground (arith, up_to-eq sep s k)

-- sep.join(pieces)
unfoldable pub join : Text → List Text → Text
join sep [] = []
join sep (t ∷ []) = t
join sep (t ∷ u ∷ ts) = t ++ (sep ++ join sep (u ∷ ts))

-- s.lower(), of ASCII letters
unfoldable pub lower : Text → Text
lower = map (λ c. if leb b'A' c && leb c b'Z' then c + 32 else c)

-- The digits of a number; the fuel is more than there are digits.
decimal_go : ℕ → ℕ → Text → Text
decimal_go zero n tail = tail
decimal_go (suc fuel) n tail =
    let here = (b'0' + n % 10) ∷ tail in
    elim (ltb n 10) [ true ↦ here | false ↦ decimal_go fuel (n / 10) here ]

-- '%d' % n
unfoldable pub decimal : ℕ → Text
unfolding decimal_go
decimal n = decimal_go (suc n) n []

length-delete_go : (p : Text) (skip : ℕ) (s : Text) → length (replace_go p [] skip s) ≤ length s
unfolding replace_go
length-delete_go p skip [] = omega arith
length-delete_go p (suc skip) (c ∷ s) = omega (arith, length-delete_go p skip s)
length-delete_go p zero (c ∷ s) =
    ground (arith, length-delete_go p (if starts_with (c ∷ s) p then length p - 1 else 0) s)

-- Deleting makes no text longer.
pub length-delete : (s p : Text) → length (replace s p []) ≤ length s
unfolding replace
length-delete s p = length-delete_go p 0 s

-- A text that is not empty is found inside the other one.
pub find-lt : (s p : Text) (c n : ℕ) → find s (c ∷ p) ≡ some n → n + length (c ∷ p) ≤ length s
unfolding find
find-lt [] p c n h = ground arith
find-lt (x ∷ s) p c n h = ground (arith, find-lt s p c (n - 1), starts_with-length (x ∷ s) (c ∷ p))
