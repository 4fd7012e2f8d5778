-- ===== src/Emit/Filtering.antt =====
-- The filters decide as a whole: the last one that fits the category has the word.
use falcon_link.Prelude.{
  ℕ, ◌≡◌, refl, Bool, true, false, not, ◌&&◌, Option, none, some, List, [], ◌∷◌, arith, all, codes,
  starts_with, Text, leb, if◌then◌else◌, drop,
}
use falcon_link.Nolint.{Suppressions, is_error_suppressed_by_nolint}
use falcon_link.LintState.{LintState, is_signed}
use falcon_link.LintState.Filters.{Configured, Configured-IsSigned}
use falcon_link.Emit.{run_filters, should_print_error}

-- The filter is about the category: behind its sign is a prefix of it.
abbrev pub fits : Text → Text → Bool
fits category f = starts_with category (drop 1 f)

-- The last filter of the list that fits the category.
abbrev pub last_fit : Text → List Text → Option Text
last_fit category [] = none
last_fit category (f ∷ fs) = elim (last_fit category fs) [
  | some g ↦ some g
  | none ↦ if fits category f then some f else none
]

-- The category is filtered out by this filter.
abbrev pub excludes : Option Text → Bool
excludes none = false
excludes (some f) = starts_with f (codes "-")

abbrev decided : Bool → Option Text → Bool
decided b none = b
decided b (some f) = starts_with f (codes "-")

run_filters-last_fit :
    (category : Text) (b : Bool) (fs : List Text)
    → all is_signed fs ≡ true
    → run_filters category b fs ≡ some (decided b (last_fit category fs))
unfolding run_filters all is_signed
run_filters-last_fit category b [] h = refl
run_filters-last_fit category b (f ∷ fs) h = ground (
  arith,
  run_filters-last_fit category (if fits category f then true else b) fs,
  run_filters-last_fit category (if fits category f then false else b) fs,
)

-- With filters that a run of the program can have the assertion holds: an error is printed exactly if
-- no NOLINT comment suppresses it, its confidence is at least the verbosity, and the last filter
-- that fits its category, if there is one, does not begin with a minus sign.
pub should_print_error_lem :
    (category : Text) (confidence linenum : ℕ) (suppressions : Suppressions) (s : LintState)
    → Configured s
    → should_print_error category confidence linenum suppressions s
      ≡ some (
          not (is_error_suppressed_by_nolint category linenum suppressions)
          && (leb s.verbose_level confidence && not (excludes (last_fit category s.filters))))
unfolding should_print_error
should_print_error_lem category confidence linenum suppressions s c =
    ground (arith, run_filters-last_fit category false s.filters (Configured-IsSigned c).filters)
