-- ===== src/Comments/Scan.antt =====
-- The scan for the first line that passes a test, and what the removal of a range changes of it.
use falcon_link.Prelude.{
  ℕ, zero, suc, ◌+◌, ◌≤◌, ◌<◌, ◌≡◌, refl, ◌∙◌, inl, inr, Bool, false, ◌||◌, none, some, List, [],
  ◌∷◌, ◌++◌, arith, any, codes, Text, Bool-cases, Option-cases, length, set, take, drop, length-set,
  length-drop,
}
use falcon_link.Comments.{scan_lines, next_line, remove_range}

-- No line before the index passes the test.
abbrev pub NoneBefore : (Text → Bool) → ℕ → List Text → Type 0
NoneBefore p n lines = any p (take n lines) ≡ false

module _ (p : Text → Bool) where
  -- What the scan finds is the first line, and it is inside the list.
  scan_lines-some :
      (lines : List Text) (i b : ℕ)
      → scan_lines p lines i ≡ some b
      → (k : ℕ) × (b ≡ i + k) × (k < length lines) × NoneBefore p k lines
  unfolding scan_lines any
  scan_lines-some [] i b h = absurd (cc)
  scan_lines-some (l ∷ lines) i b h = elim (Bool-cases (p l)) [
    | inl t ↦
        let e : some i ≡ some b = (rw (t, scan_lines) at h) in
        let q : i ≡ b = cc in (0, omega arith, omega arith, refl)
    | inr f ↦
        let (k, e, lt, none_before) = scan_lines-some lines (i + 1) b (rw (f, scan_lines) at h) in
        (suc k, omega arith, omega arith, rw (f, none_before))
  ]

  scan_lines-none : (lines : List Text) (i : ℕ) → scan_lines p lines i ≡ none → any p lines ≡ false
  unfolding scan_lines any
  scan_lines-none [] i h = refl
  scan_lines-none (l ∷ lines) i h = ground (arith, scan_lines-none lines (i + 1))

  any-append : (xs ys : List Text) → any p (xs ++ ys) ≡ (any p xs || any p ys)
  unfolding any
  any-append [] ys = refl
  any-append (x ∷ xs) ys = ground (arith, any-append xs ys)

  any-split :
      (n : ℕ) (lines : List Text) → any p lines ≡ (any p (take n lines) || any p (drop n lines))
  unfolding any
  any-split zero lines = refl
  any-split (suc n) [] = refl
  any-split (suc n) (x ∷ lines) = ground (arith, any-split n lines)

  -- A longer start of the list is a start and what is behind it.
  any-take_add :
      (n m s : ℕ) (lines : List Text)
      → s ≡ n + m
      → any p (take s lines) ≡ (any p (take n lines) || any p (take m (drop n lines)))
  unfolding any
  any-take_add zero m s lines e = let q : s ≡ m = omega arith in rw q
  any-take_add (suc n) m zero lines e = absurd (omega arith)
  any-take_add (suc n) zero (suc s) [] e = refl
  any-take_add (suc n) (suc m) (suc s) [] e = refl
  any-take_add (suc n) m (suc s) (x ∷ lines) e =
      ground (arith, any-take_add n m s lines (omega arith))

  any-take-set :
      (i : ℕ) (v : Text) (lines : List Text)
      → i < length lines
      → any p (take (suc i) (set lines i v)) ≡ (any p (take i lines) || p v)
  unfolding any
  any-take-set i v [] h = elim h [ ]
  any-take-set zero v (x ∷ lines) h = ground arith
  any-take-set (suc i) v (x ∷ lines) h = ground (arith, any-take-set i v lines)

  -- The range holds the new line, and what stood before it stays.
  pub remove_range-NoneBefore :
      (n i : ℕ) (lines : List Text)
      → p (codes "/**/") ≡ false
      → i + n ≤ length lines
      → NoneBefore p i lines
      → NoneBefore p (i + n) (remove_range n i lines)
  unfolding remove_range
  remove_range-NoneBefore zero i lines h le none_before =
      let e : i + 0 ≡ i = omega arith in rw e none_before
  remove_range-NoneBefore (suc n) i lines h le none_before =
      let e : i + suc n ≡ i + 1 + n = omega arith in
      let one_more : i + 1 ≡ suc i = omega arith in
      rw e (
        remove_range-NoneBefore n (i + 1) (set lines i (codes "/**/")) h
          (omega (arith, length-set {0} lines i (codes "/**/")))
          (rw one_more
            (any-take-set i (codes "/**/") lines (omega arith) ∙ rw (none_before, h) refl)))

  -- The two searches, from an index before which nothing is left to find.
  pub next_line-lt :
      (lines : List Text) (i b : ℕ)
      → i ≤ length lines
      → next_line p lines i ≡ b
      → b < length lines
      → (i ≤ b) × (NoneBefore p i lines → NoneBefore p b lines)
  unfolding next_line
  next_line-lt lines i b le e lt = elim (Option-cases (scan_lines p (drop i lines) i)) [
    | inl off ↦ let q : length lines ≡ b = (rw (off, next_line) at e) in absurd (omega arith)
    | inr (c, on) ↦
        let q : c ≡ b = (rw (on, next_line) at e) in
        let (k, sum, small, none_before) = scan_lines-some (drop i lines) i c on in
        (
          omega arith,
          λ before. any-take_add i k b lines (omega arith) ∙ rw (before, none_before) refl,
        )
  ]

  pub next_line-ge :
      (lines : List Text) (i b : ℕ)
      → next_line p lines i ≡ b
      → length lines ≤ b
      → i ≤ length lines
      → NoneBefore p i lines
      → any p lines ≡ false
  unfolding next_line
  next_line-ge lines i b e ge le before = elim (Option-cases (scan_lines p (drop i lines) i)) [
    | inl off ↦ any-split i lines ∙ rw (before, scan_lines-none (drop i lines) i off) refl
    | inr (c, on) ↦
        let q : c ≡ b = (rw (on, next_line) at e) in
        let (k, sum, small, none_before) = scan_lines-some (drop i lines) i c on in
        absurd (omega (arith, length-drop {0} i lines))
  ]
