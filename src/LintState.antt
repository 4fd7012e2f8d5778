-- ===== src/LintState.antt =====
-- `_CppLintState` (build_support/cpplint.py): the settings, the filters, the error counts, and what
-- was written. `sys.stdout` and `sys.stderr` are the texts written to them, in order.
pub mod Counts
pub mod Filters
pub mod JUnit
use falcon_link.Prelude.{
  ℕ, ◌+◌, ◌-◌, ◌*◌, ◌/◌, ◌%◌, ◌^◌, ◌≤◌, ◌<◌, ◌≡◌, ap, ◌∙◌, ◌≡⟨◌⟩◌, ◌∎, ◌≢◌, ◌↔◌, ◌⊎◌, Bool, false,
  not, ◌&&◌, ◌||◌, Option, none, some, List, [], ◌∷◌, ◌++◌, codes, text_eq, text_lt, starts_with,
  count, strip, split, decimal, Text, ltb, ◌==◌, if◌then◌else◌, get_or, set,
}
use mathlib.Core.Option.{get_or as option_or}
use falcon_link.Dict.{Dict, get, put, member, text_keys}

-- One recorded failure: filename, linenum, message, category, confidence.
pub record Failure : Type 0 where
  pub filename : Text
  pub linenum : ℕ
  pub message : Text
  pub category : Text
  pub confidence : ℕ

pub record LintState : Type 0 where
  pub verbose_level : ℕ
  pub error_count : ℕ
  pub filters : List Text
  pub filters_backup : List Text
  pub counting : Text
  pub errors_by_category : Dict Text ℕ
  pub quiet : Bool
  pub output_format : Text
  pub junit_errors : List Text
  pub junit_failures : List Failure
  pub stdout : List Text
  pub stderr : List Text

-- _DEFAULT_FILTERS
unfoldable pub default_filters : List Text
default_filters = codes "-build/include_alpha" ∷ []

-- __init__
unfoldable pub new_lint_state : LintState
new_lint_state = record {
  verbose_level = 1;
  error_count = 0;
  filters = default_filters;
  filters_backup = default_filters;
  counting = codes "total";
  errors_by_category = [];
  quiet = false;
  output_format = codes "emacs";
  junit_errors = [];
  junit_failures = [];
  stdout = [];
  stderr = [];
}

-- SetOutputFormat
abbrev pub set_output_format : Text → LintState → LintState
set_output_format f s = record s { output_format = f }

-- SetQuiet: the previous setting, and the new state
unfoldable pub set_quiet : Bool → LintState → Bool × LintState
set_quiet quiet s = (s.quiet, record s { quiet = quiet })

-- SetVerboseLevel: the previous setting, and the new state
unfoldable pub set_verbose_level : ℕ → LintState → ℕ × LintState
set_verbose_level level s = (s.verbose_level, record s { verbose_level = level })

-- SetCountingStyle
abbrev pub set_counting_style : Text → LintState → LintState
set_counting_style c s = record s { counting = c }

-- A call that may raise ValueError; the state is what it left.
pub data Outcome : Type 0 where
  ok : LintState → Outcome
  value_error : Text → LintState → Outcome

-- `self.filters.append(clean_filt)` for each piece that is not empty
append_filters : List Text → List Text → List Text
append_filters [] fs = fs
append_filters (piece ∷ pieces) fs =
    append_filters pieces (elim (strip piece) [ [] ↦ fs | c ∷ t ↦ fs ++ (c ∷ t) ∷ [] ])

-- The filter begins with + or -.
unfoldable pub is_signed : Text → Bool
is_signed f = starts_with f (codes "+") || starts_with f (codes "-")

-- The first filter without a sign.
first_unsigned : List Text → Option Text
unfolding is_signed
first_unsigned [] = none
first_unsigned (f ∷ fs) = if is_signed f then first_unsigned fs else some f

-- AddFilters
unfoldable pub add_filters : Text → LintState → Outcome
unfolding append_filters first_unsigned
add_filters filters s =
    let added = record s { filters = append_filters (split filters b',') s.filters } in
    elim (first_unsigned added.filters) [
      | none ↦ ok added
      | some f ↦
          value_error
            (codes "Every filter in --filters must start with + or - ("
              ++ (f ++ codes " does not)"))
            added
    ]

-- SetFilters
unfoldable pub set_filters : Text → LintState → Outcome
unfolding add_filters
set_filters filters s = add_filters filters (record s { filters = default_filters })

-- BackupFilters
abbrev pub backup_filters : LintState → LintState
backup_filters s = record s { filters_backup = s.filters }

-- RestoreFilters
abbrev pub restore_filters : LintState → LintState
restore_filters s = record s { filters = s.filters_backup }

-- ResetErrorCounts
unfoldable pub reset_error_counts : LintState → LintState
reset_error_counts s = record s { error_count = 0; errors_by_category = [] }

-- category.split('/')[0]
unfoldable pub top_level : Text → Text
unfolding split
top_level category = elim (split category b'/') [ [] ↦ [] | piece ∷ pieces ↦ piece ]

-- `if category not in d: d[category] = 0`, then `d[category] += 1`
bump : Text → Dict Text ℕ → Dict Text ℕ
unfolding get put
bump category d = put d category (option_or (get d category) 0 + 1)

abbrev pub counts_categories : Text → Bool
counts_categories c = text_eq c (codes "toplevel") || text_eq c (codes "detailed")

-- IncrementErrorCount
unfoldable pub increment_error_count : Text → LintState → LintState
unfolding top_level bump
increment_error_count category s =
    if counts_categories s.counting
    then record s {
      error_count = s.error_count + 1;
      errors_by_category =
          bump (if text_eq s.counting (codes "detailed") then category else top_level category)
            s.errors_by_category;
    }
    else record s { error_count = s.error_count + 1 }

-- PrintInfo, with the value of the module's `_quiet`
unfoldable pub print_info : Bool → Text → LintState → LintState
print_info quiet_global message s =
    if not quiet_global && not (text_eq s.output_format (codes "junit"))
    then record s { stdout = s.stdout ++ message ∷ [] }
    else s

-- `_quiet`, which nothing in the module assigns after this
abbrev pub module_quiet : Bool
module_quiet = false

-- PrintError
unfoldable pub print_error : Text → LintState → LintState
print_error message s =
    if text_eq s.output_format (codes "junit")
    then record s { junit_errors = s.junit_errors ++ message ∷ [] }
    else record s { stderr = s.stderr ++ message ∷ [] }

-- AddJUnitFailure
unfoldable pub add_junit_failure : Text → ℕ → Text → Text → ℕ → LintState → LintState
add_junit_failure filename linenum message category confidence s = record s {
  junit_failures =
      s.junit_failures
      ++ (record {
        filename = filename;
        linenum = linenum;
        message = message;
        category = category;
        confidence = confidence;
      })
        ∷ [];
}

-- `sorted` of the items of a dict with these keys
insert_item : Text × ℕ → List (Text × ℕ) → List (Text × ℕ)
insert_item (k, n) [] = (k, n) ∷ []
insert_item (k, n) ((j, m) ∷ l) =
    if text_lt j k then (j, m) ∷ insert_item (k, n) l else (k, n) ∷ (j, m) ∷ l

pub sorted_items : Dict Text ℕ → List (Text × ℕ)
unfolding insert_item
sorted_items [] = []
sorted_items (i ∷ l) = insert_item i (sorted_items l)

print_categories : List (Text × ℕ) → LintState → LintState
unfolding print_info decimal
print_categories [] s = s
print_categories ((category, count) ∷ items) s = print_categories items (
    print_info module_quiet
      (codes "Category '"
        ++ (category ++ (codes "' errors found: " ++ (decimal count ++ codes "\n"))))
      s)

-- PrintErrorCounts
unfoldable pub print_error_counts : LintState → LintState
unfolding print_categories sorted_items print_info decimal
print_error_counts s =
    let shown = print_categories (sorted_items s.errors_by_category) s in
    if ltb 0 shown.error_count
    then print_info module_quiet
        (codes "Total errors found: " ++ (decimal shown.error_count ++ codes "\n")) shown
    else shown
