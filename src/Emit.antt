-- ===== src/Emit.antt =====
-- `_ShouldPrintError` and `Error` (build_support/cpplint.py): whether a report is printed, and what
-- printing it does to the state. `none` is the AssertionError for a filter without a sign.
pub mod Filtering
pub mod Effects
use falcon_link.Prelude.{
  ℕ, ◌+◌, ◌-◌, ◌*◌, ◌/◌, ◌%◌, ◌^◌, ◌≤◌, ◌<◌, ◌≡◌, ◌∙◌, ◌≡⟨◌⟩◌, ◌∎, ◌≢◌, ◌↔◌, ◌⊎◌, Bool, true, false,
  not, ◌&&◌, ◌||◌, Option, none, some, List, [], ◌∷◌, ◌++◌, codes, text_eq, starts_with, count,
  decimal, Text, ltb, ◌==◌, if◌then◌else◌, drop,
}
use falcon_link.Nolint.{Suppressions, is_error_suppressed_by_nolint}
use falcon_link.LintState.{LintState, increment_error_count, print_error, add_junit_failure}
use falcon_link.Report.{Report}

-- The loop over the filters: is the category filtered out at the end?
unfoldable pub run_filters : Text → Bool → List Text → Option Bool
run_filters category is_filtered [] = some is_filtered
run_filters category is_filtered (f ∷ fs) = elim (starts_with f (codes "-")) [
  | true ↦ run_filters category (if starts_with category (drop 1 f) then true else is_filtered) fs
  | false ↦ elim (starts_with f (codes "+")) [
    | true ↦
        run_filters category (if starts_with category (drop 1 f) then false else is_filtered) fs
    | false ↦ none
  ]
]

-- _ShouldPrintError
unfoldable pub should_print_error : Text → ℕ → ℕ → Suppressions → LintState → Option Bool
unfolding run_filters
should_print_error category confidence linenum suppressions s =
    if is_error_suppressed_by_nolint category linenum suppressions
    then some false
    else if ltb confidence s.verbose_level
    then some false
    else elim (run_filters category false s.filters) [
      | none ↦ none
      | some is_filtered ↦ some (not is_filtered)
    ]

-- '%s(%s): error cpplint: [%s] %s [%d]\n'
vs7_message : Report → Text
unfolding decimal
vs7_message r =
    r.filename
    ++ (codes "("
        ++ (decimal r.linenum
            ++ (codes "): error cpplint: ["
                ++ (r.category
                    ++ (codes "] "
                        ++ (r.message ++ (codes " [" ++ (decimal r.confidence ++ codes "]\n"))))))))

-- '%s:%s: warning: %s  [%s] [%d]\n'
eclipse_message : Report → Text
unfolding decimal
eclipse_message r =
    r.filename
    ++ (codes ":"
        ++ (decimal r.linenum
            ++ (codes ": warning: "
                ++ (r.message
                    ++ (codes "  ["
                        ++ (r.category
                            ++ (codes "] [" ++ (decimal r.confidence ++ codes "]\n"))))))))

-- '%s:%s:  %s  [%s] [%d]\n'
emacs_message : Report → Text
unfolding decimal
emacs_message r =
    r.filename
    ++ (codes ":"
        ++ (decimal r.linenum
            ++ (codes ":  "
                ++ (r.message
                    ++ (codes "  ["
                        ++ (r.category
                            ++ (codes "] [" ++ (decimal r.confidence ++ codes "]\n"))))))))

abbrev pub write_error : Text → LintState → LintState
write_error message s = record s { stderr = s.stderr ++ message ∷ [] }

-- What Error does with a report that is to be printed.
pub emit : Report → LintState → LintState
unfolding vs7_message eclipse_message emacs_message print_error add_junit_failure
emit r s =
    let counted = increment_error_count r.category s in
    if text_eq counted.output_format (codes "vs7")
    then print_error (vs7_message r) counted
    else if text_eq counted.output_format (codes "eclipse")
    then write_error (eclipse_message r) counted
    else if text_eq counted.output_format (codes "junit")
    then add_junit_failure r.filename r.linenum r.message r.category r.confidence counted
    else write_error (emacs_message r) counted

-- Error
unfoldable pub error_handler : Suppressions → Report → LintState → Option LintState
unfolding should_print_error emit
error_handler suppressions r s =
    elim (should_print_error r.category r.confidence r.linenum suppressions s) [
      | none ↦ none
      | some b ↦ some (if b then emit r s else s)
    ]
