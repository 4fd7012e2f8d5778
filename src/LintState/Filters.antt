-- ===== src/LintState/Filters.antt =====
-- The error-message filters: every filter in force has a sign, and the backup comes back.
use falcon_link.Prelude.{
  ◌≡◌, refl, subst, ◌∙◌, inl, inr, true, false, ◌&&◌, none, some, List, [], ◌∷◌, ◌++◌, append-nil,
  append_assoc, arith, all, codes, starts_with, strip, split, Text, if◌then◌else◌, Bool-cases,
  List-cases,
}
use falcon_link.LintState.{
  LintState, Outcome, ok, value_error, is_signed, first_unsigned, append_filters, add_filters,
  set_filters, backup_filters, restore_filters, default_filters, new_lint_state,
}

-- Every filter in force, and in the backup, begins with + or -.
pub record IsSigned (s : LintState) : Type 0 where
  pub filters : all is_signed s.filters ≡ true
  pub backup : all is_signed s.filters_backup ≡ true

first_unsigned-none : (fs : List Text) → first_unsigned fs ≡ none → all is_signed fs ≡ true
unfolding first_unsigned all
first_unsigned-none [] h = refl
first_unsigned-none (f ∷ fs) h = ground (arith, first_unsigned-none fs)

all-first_unsigned : (fs : List Text) → all is_signed fs ≡ true → first_unsigned fs ≡ none
unfolding first_unsigned all
all-first_unsigned [] h = refl
all-first_unsigned (f ∷ fs) h = ground (arith, all-first_unsigned fs)

-- A call that returned kept the signs; one that raised ended the program.
abbrev pub Returned : (LintState → Type 0) → Outcome → Type 0
Returned P (ok s) = P s
Returned P (value_error _ s) = Unit

add_filters-IsSigned : (f : Text) (s : LintState) → IsSigned s → Returned IsSigned (add_filters f s)
unfolding add_filters
add_filters-IsSigned f s h =
    let fs = append_filters (split f b',') s.filters in
    ground (arith, first_unsigned-none fs, h.backup)

-- The states that a run of the program can be in, as far as the filters go: those of a new state, what
-- the calls that returned made of them, and what any operation makes that leaves the filters alone.
pub data Configured : LintState → Type 0 where
  new : Configured new_lint_state
  set : {s t : LintState} → Configured s → (f : Text) → set_filters f s ≡ ok t → Configured t
  added : {s t : LintState} → Configured s → (f : Text) → add_filters f s ≡ ok t → Configured t
  backed_up : {s : LintState} → Configured s → Configured (backup_filters s)
  restored : {s : LintState} → Configured s → Configured (restore_filters s)
  kept :
      {s t : LintState}
      → Configured s
      → t.filters ≡ s.filters
      → t.filters_backup ≡ s.filters_backup
      → Configured t

default-IsSigned : all is_signed default_filters ≡ true
unfolding all is_signed default_filters codes starts_with
default-IsSigned = refl

set_filters-IsSigned : (f : Text) (s : LintState) → IsSigned s → Returned IsSigned (set_filters f s)
unfolding set_filters
set_filters-IsSigned f s h =
    add_filters-IsSigned f (record s { filters = default_filters })
      (record { filters = default-IsSigned; backup = h.backup })

new-IsSigned : IsSigned new_lint_state
unfolding new_lint_state
new-IsSigned = record { filters = default-IsSigned; backup = default-IsSigned }

-- However the filters were set, added to, backed up and restored, as long as no call raised, each one
-- begins with + or -.
pub Configured-IsSigned : {s : LintState} → Configured s → IsSigned s
Configured-IsSigned new = new-IsSigned
Configured-IsSigned (set {s} c f e) =
    subst (Returned IsSigned) e (set_filters-IsSigned f s (Configured-IsSigned c))
Configured-IsSigned (added {s} c f e) =
    subst (Returned IsSigned) e (add_filters-IsSigned f s (Configured-IsSigned c))
Configured-IsSigned (backed_up {s} c) =
    let h = Configured-IsSigned c in record { filters = h.filters; backup = h.filters }
Configured-IsSigned (restored {s} c) =
    let h = Configured-IsSigned c in record { filters = h.backup; backup = h.backup }
Configured-IsSigned (kept c e q) =
    let h = Configured-IsSigned c in record { filters = rw e h.filters; backup = rw q h.backup }

-- The pieces of a filter argument, stripped, without those that are empty.
abbrev pub cleaned : List Text → List Text
cleaned [] = []
cleaned (p ∷ ps) = elim (strip p) [ [] ↦ cleaned ps | c ∷ t ↦ (c ∷ t) ∷ cleaned ps ]

append_filters-cleaned : (ps fs : List Text) → append_filters ps fs ≡ fs ++ cleaned ps
unfolding append_filters
append_filters-cleaned [] fs = rw append-nil
append_filters-cleaned (p ∷ ps) fs = elim (List-cases (strip p)) [
  | inl e ↦ rw (e, append_filters, cleaned) (append_filters-cleaned ps fs)
  | inr (c, t, e) ↦
      rw (e, append_filters, cleaned)
        (append_filters-cleaned ps (fs ++ (c ∷ t) ∷ [])
          ∙ append_assoc fs ((c ∷ t) ∷ []) (cleaned ps))
]

all-append : (xs ys : List Text) → all is_signed (xs ++ ys) ≡ (all is_signed xs && all is_signed ys)
unfolding all
all-append [] ys = refl
all-append (x ∷ xs) ys = ground (arith, all-append xs ys)

first_unsigned-some :
    (fs : List Text) → all is_signed fs ≡ false → (f : Text) × (first_unsigned fs ≡ some f)
unfolding first_unsigned all
first_unsigned-some [] h = absurd (cc)
first_unsigned-some (f ∷ fs) h = elim (Bool-cases (is_signed f)) [
  | inl signed ↦ let (g, e) = first_unsigned-some fs (ground arith) in (g, rw signed e)
  | inr unsigned ↦ (f, rw unsigned)
]

-- The state that SetFilters leaves: the default filters, and those of the argument behind them.
abbrev pub filtered : Text → LintState → LintState
filtered f s = record s { filters = default_filters ++ cleaned (split f b',') }

-- SetFilters takes the pieces between commas, stripped and without the empty ones, behind the default
-- filters, which replace what was there before; it returns exactly if each piece begins with a plus or
-- a minus, so that it raises a ValueError for a piece with no sign, and where it raises, the filters are replaced all the same.
pub set_filters_lem :
    (f : Text) (s : LintState)
    → (message : Text) × (set_filters f s ≡ (
        if all is_signed (cleaned (split f b','))
        then ok (filtered f s)
        else value_error message (filtered f s)))
unfolding set_filters add_filters
set_filters_lem f s =
    let pieces = cleaned (split f b',') in
    let signs = all-append default_filters pieces in
    let e = append_filters-cleaned (split f b',') default_filters in
    elim (Bool-cases (all is_signed pieces)) [
      | inl h ↦ (
        [],
        rw h (
            ground
              (arith, e, signs, default-IsSigned, all-first_unsigned (default_filters ++ pieces))),
      )
      | inr h ↦
          let (g, q) =
            first_unsigned-some (default_filters ++ pieces)
              (signs ∙ rw (default-IsSigned, h) refl) in
          (
            codes "Every filter in --filters must start with + or - (" ++ (g ++ codes " does not)"),
            rw h (ground (arith, e, q)),
          )
    ]
