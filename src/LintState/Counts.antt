-- ===== src/LintState/Counts.antt =====
-- The error counts: the categories add up to the total, and each has its own number.
use falcon_link.Prelude.{
  ℕ, ◌+◌, ◌≡◌, refl, ap, subst, ◌∙◌, inl, inr, Bool, true, not, ◌&&◌, ◌||◌, List, [], ◌∷◌, ◌++◌,
  arith, all, codes, text_eq, starts_with, Text, text_eq_iff, split-first, up_to-eq, ◌==◌,
  if◌then◌else◌, Bool-cases,
}
use mathlib.Core.Option.{get_or as option_or}
use falcon_link.Dict.{Dict, get, put, get-put, text_keys}
use falcon_link.LintState.{
  LintState, bump, top_level, increment_error_count, counts_categories, reset_error_counts,
}

-- The sum of the counts.
abbrev pub total : Dict Text ℕ → ℕ
total [] = 0
total ((k, n) ∷ d) = n + total d

-- The categories add up to the number of errors.
abbrev pub AddsUp : LintState → Type 0
AddsUp s = total s.errors_by_category ≡ s.error_count

total-bump : (c : Text) (d : Dict Text ℕ) → total (bump c d) ≡ total d + 1
unfolding bump put get
total-bump c [] = omega arith
total-bump c ((k, n) ∷ d) = ground (arith, total-bump c d)

reset_error_counts-AddsUp : (s : LintState) → AddsUp (reset_error_counts s)
unfolding reset_error_counts
reset_error_counts-AddsUp s = refl

increment_error_count-AddsUp :
    (c : Text) (s : LintState)
    → counts_categories s.counting ≡ true
    → AddsUp s
    → AddsUp (increment_error_count c s)
unfolding increment_error_count
increment_error_count-AddsUp c s h a =
    ground (arith, total-bump c s.errors_by_category, total-bump (top_level c) s.errors_by_category)

-- The errors of a run, one after the other.
abbrev pub increment_all : List Text → LintState → LintState
increment_all [] s = s
increment_all (c ∷ cs) s = increment_all cs (increment_error_count c s)

increment-counting : (c : Text) (s : LintState) → (increment_error_count c s).counting ≡ s.counting
unfolding increment_error_count
increment-counting c s = ground arith

increment_all-AddsUp :
    (cs : List Text) (s : LintState)
    → counts_categories s.counting ≡ true
    → AddsUp s
    → AddsUp (increment_all cs s)
increment_all-AddsUp [] s h a = a
increment_all-AddsUp (c ∷ cs) s h a =
    increment_all-AddsUp cs (increment_error_count c s) (rw (increment-counting c s) h)
      (increment_error_count-AddsUp c s h a)

-- The category is the key, or begins with the key and a slash; no top level has a slash in it.
abbrev pub is_under : Text → Text → Bool
is_under k c = all (λ x. not (x == b'/')) k && (text_eq c k || starts_with c (k ++ b'/' ∷ []))

-- An error of the category counts under the key, in the given style.
abbrev pub counts_under : Text → Text → Text → Bool
counts_under style k c = if text_eq style (codes "detailed") then text_eq c k else is_under k c

-- How many of the categories count under the key.
abbrev pub occurrences : Text → Text → List Text → ℕ
occurrences style k [] = 0
occurrences style k (c ∷ cs) = (if counts_under style k c then 1 else 0) + occurrences style k cs

-- The key under which an error of the category is counted, in the given style.
abbrev key_of : Text → Text → Text
key_of style c = if text_eq style (codes "detailed") then c else top_level c

key_of-counts_under : (style c k : Text) → text_eq (key_of style c) k ≡ counts_under style k c
unfolding top_level
key_of-counts_under style c k = elim (Bool-cases (text_eq style (codes "detailed"))) [
  | inl t ↦ rw t refl
  | inr f ↦ rw f (
      let (rest, e) = split-first c b'/' in
      ap (λ (ps : List Text). text_eq (elim ps [ [] ↦ [] | piece ∷ pieces ↦ piece ]) k) e
      ∙ up_to-eq b'/' c k)
]

-- The number counted under a key, 0 where there is none.
abbrev pub counted : Text → LintState → ℕ
counted k s = option_or (get s.errors_by_category k) 0

get-bump :
    (c k : Text) (d : Dict Text ℕ)
    → option_or (get (bump c d) k) 0 ≡ option_or (get d k) 0 + (if text_eq c k then 1 else 0)
unfolding bump
get-bump c k d = ground (arith, get-put d c k (option_or (get d c) 0 + 1), text_eq_iff c k)

counted-increment :
    (c k : Text) (s : LintState)
    → counts_categories s.counting ≡ true
    → counted k (increment_error_count c s)
      ≡ counted k s + (if counts_under s.counting k c then 1 else 0)
unfolding increment_error_count
counted-increment c k s h = ground (
  arith,
  key_of-counts_under s.counting c k,
  get-bump c k s.errors_by_category,
  get-bump (top_level c) k s.errors_by_category,
)

counted-increment_all :
    (style : Text) (cs : List Text) (k : Text) (s : LintState)
    → s.counting ≡ style
    → counts_categories style ≡ true
    → counted k (increment_all cs s) ≡ counted k s + occurrences style k cs
counted-increment_all style [] k s e h = omega arith
counted-increment_all style (c ∷ cs) k s e h =
    let step = counted-increment c k s (rw e h) in
    omega (
      arith,
      counted-increment_all style cs k (increment_error_count c s) (increment-counting c s ∙ e) h,
      subst
          (λ (u : Text).
            counted k (increment_error_count c s)
            ≡ counted k s + (if counts_under u k c then 1 else 0))
          e step,
    )

-- Where errors are counted by category, a run that starts from reset counts ends with the counts of its
-- errors: under each key that of the errors whose category is the key, in the style `detailed`, and in
-- the style `toplevel`, under a key with no slash, that of those whose category is the key or begins with
-- the key and a slash, and 0 under other keys. The counts add up to the total.
pub increment_error_count_run :
    (cs : List Text) (k : Text) (s : LintState)
    → counts_categories s.counting ≡ true
    → (counted k (increment_all cs (reset_error_counts s)) ≡ occurrences s.counting k cs)
      × AddsUp (increment_all cs (reset_error_counts s))
unfolding reset_error_counts get
increment_error_count_run cs k s h = (
  omega (arith, counted-increment_all s.counting cs k (reset_error_counts s) refl h),
  increment_all-AddsUp cs (reset_error_counts s) h (reset_error_counts-AddsUp s),
)
