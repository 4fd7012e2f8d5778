-- ===== src/Examples/State.antt =====
-- The state of the linter: NOLINT comments, filters, counts, reports and function sizes.
use falcon_link.Prelude.{
  ℕ, ◌+◌, ◌*◌, ◌^◌, ◌≤◌, ◌≡◌, refl, ◌↔◌, ◌⊎◌, true, not, ◌&&◌, ◌||◌, none, some, List, [], ◌∷◌,
  arith, any, all, codes, text_eq, starts_with, ends_with, split, Text, leb, ◌==◌, if◌then◌else◌,
  length, All,
}
use falcon_link.Report.{Report, report}
use falcon_link.Regex.{Found, search_in, group_of}
use falcon_link.Dict.{get, member, text_keys, option_same}
use falcon_link.Nolint.{
  Suppressions, nolint_pattern, parse_nolint_suppressions, is_error_suppressed_by_nolint,
  process_global_suppressions, matches, search_c_file, search_kernel_file,
}
use falcon_link.Nolint.Categories.{c_suppressed, kernel_suppressed}
use falcon_link.Nolint.Lines.{
  line_of, silences, parse_nolint_suppressions-is_error_suppressed,
  parse_nolint_suppressions_report,
}
use falcon_link.Nolint.Files.{process_global_suppressions-is_error_suppressed}
use falcon_link.LintState.{
  LintState, Failure, ok, value_error, new_lint_state, set_filters, counts_categories,
  reset_error_counts, is_signed,
}
use falcon_link.LintState.Counts.{
  AddsUp, counted, increment_all, occurrences, increment_error_count_run,
}
use falcon_link.LintState.Filters.{
  new, backed_up, IsSigned, Configured-IsSigned, cleaned, filtered, set_filters_lem,
}
use falcon_link.LintState.JUnit.{group_failures, no_groups}
use falcon_link.LintState.JUnit.Grouping.{Distinct, of_file, group_failures-of_file}
use falcon_link.Emit.{should_print_error}
use falcon_link.Emit.Filtering.{excludes, last_fit, should_print_error_lem}
use falcon_link.Emit.Effects.{handle_all, shown, error_handler_run}
use falcon_link.FunctionState.{
  FunctionState, new_function_state, begin, end_function, check, base_trigger,
}
use falcon_link.FunctionState.Levels.{count_lines, check-begin, check-confidence}

abbrev no_suppressions : Suppressions
no_suppressions = record { by_line = []; everywhere = [] }

-- NOLINT comments
abbrev silenced : Text
silenced = codes "x; // NOLINTNEXTLINE(build/include)"

silenced_next :
    is_error_suppressed_by_nolint
      (codes "build/include")
      8
      (parse_nolint_suppressions (codes "a.cc") silenced 7 no_suppressions).0
    ≡ true
unfolding is_error_suppressed_by_nolint parse_nolint_suppressions codes text_eq starts_with
    ends_with search_in nolint_pattern group_of option_same
silenced_next = refl

silenced_match : (m : Found) × (search_in nolint_pattern silenced ≡ some m)
unfolding search_in nolint_pattern codes
silenced_match = (_, refl)

parse_nolint_suppressions-is_error_suppressed_example :
    is_error_suppressed_by_nolint
      (codes "build/include")
      8
      (parse_nolint_suppressions (codes "a.cc") silenced 7 no_suppressions).0
    ≡ (is_error_suppressed_by_nolint (codes "build/include") 8 no_suppressions
        || (line_of silenced_match.0.hit 7 == 8
            && silences (group_of silenced_match.0 2) (codes "build/include")))
parse_nolint_suppressions-is_error_suppressed_example =
    parse_nolint_suppressions-is_error_suppressed (codes "a.cc") silenced 7 no_suppressions
      silenced_match.0 silenced_match.1 (codes "build/include") 8

abbrev unknown : Text
unknown = codes "x; // NOLINT(build/nothing)"

parse_nolint_suppressions_report_example :
    ((parse_nolint_suppressions (codes "a.cc") unknown 7 no_suppressions).1 ≡ [])
    ⊎ ((length (parse_nolint_suppressions (codes "a.cc") unknown 7 no_suppressions).1 ≡ 1)
        × ((parse_nolint_suppressions (codes "a.cc") unknown 7 no_suppressions).0
            ≡ no_suppressions))
parse_nolint_suppressions_report_example =
    parse_nolint_suppressions_report (codes "a.cc") unknown 7 no_suppressions

abbrev directives : List Text
directives = codes "// vim: sw=4 filetype=c" ∷ codes "int a;" ∷ []

process_global_suppressions-is_error_suppressed_example :
    is_error_suppressed_by_nolint
      (codes "readability/casting")
      2
      (process_global_suppressions directives no_suppressions)
    ≡ (is_error_suppressed_by_nolint (codes "readability/casting") 2 no_suppressions
        || (any (matches search_c_file) directives
            && member (codes "readability/casting") c_suppressed)
        || (any (matches search_kernel_file) directives
            && member (codes "readability/casting") kernel_suppressed))
process_global_suppressions-is_error_suppressed_example =
    process_global_suppressions-is_error_suppressed directives no_suppressions
      (codes "readability/casting") 2

-- Filters
abbrev kept_configured : LintState
kept_configured = record new_lint_state { filters_backup = new_lint_state.filters }

Configured-IsSigned_example : IsSigned kept_configured
Configured-IsSigned_example = Configured-IsSigned (backed_up new)

set_filters_lem_example :
    (message : Text) × (set_filters (codes "-build, +x") new_lint_state ≡ (
      if all is_signed (cleaned (split (codes "-build, +x") b','))
      then ok (filtered (codes "-build, +x") new_lint_state)
      else value_error message (filtered (codes "-build, +x") new_lint_state)))
set_filters_lem_example = set_filters_lem (codes "-build, +x") new_lint_state

-- Reports
abbrev two_reports : List Report
two_reports =
    report (codes "a.cc") 3 "build/include" 4 (codes "one")
    ∷ report (codes "a.cc") 5 "build/include_alpha" 4 (codes "two")
    ∷ []

should_print_error_lem_example :
    should_print_error (codes "build/include_alpha") 4 5 no_suppressions new_lint_state
    ≡ some (
        not (is_error_suppressed_by_nolint (codes "build/include_alpha") 5 no_suppressions)
        && (leb new_lint_state.verbose_level 4
            && not (excludes (last_fit (codes "build/include_alpha") new_lint_state.filters))))
should_print_error_lem_example =
    should_print_error_lem (codes "build/include_alpha") 4 5 no_suppressions new_lint_state new

error_handler_run_example :
    (t : LintState) × (handle_all no_suppressions two_reports new_lint_state ≡ some t)
    × (t.error_count + shown new_lint_state ≡ new_lint_state.error_count + shown t)
error_handler_run_example = error_handler_run no_suppressions two_reports new_lint_state new

-- Counts
abbrev by_category : LintState
by_category = record new_lint_state { counting = codes "toplevel" }

abbrev categories : List Text
categories = codes "build/include" ∷ codes "build/c++11" ∷ codes "legal/copyright" ∷ []

by_category-counts : counts_categories by_category.counting ≡ true
unfolding text_eq codes
by_category-counts = refl

increment_error_count_run_example :
    (counted (codes "build") (increment_all categories (reset_error_counts by_category))
      ≡ occurrences by_category.counting (codes "build") categories)
    × AddsUp (increment_all categories (reset_error_counts by_category))
increment_error_count_run_example =
    increment_error_count_run categories (codes "build") by_category by_category-counts

-- JUnit
abbrev failure : Text → ℕ → Failure
failure file n = record {
  filename = file;
  linenum = n;
  message = codes "m";
  category = codes "build/include";
  confidence = 4;
}

abbrev three_failures : List Failure
three_failures = failure (codes "a.cc") 1 ∷ failure (codes "b.cc") 2 ∷ failure (codes "a.cc") 3 ∷ []

group_failures-of_file_example :
    Distinct (group_failures three_failures no_groups).order
    × (member (codes "a.cc") (group_failures three_failures no_groups).order
        ≡ any (λ f. text_eq f.filename (codes "a.cc")) three_failures)
    × (get (group_failures three_failures no_groups).by_file (codes "a.cc") ≡ (
        if any (λ f. text_eq f.filename (codes "a.cc")) three_failures
        then some (of_file (codes "a.cc") three_failures)
        else none))
group_failures-of_file_example = group_failures-of_file three_failures (codes "a.cc")

-- Function sizes
check-begin_example :
    ((check (codes "a.cc") 9 1 (count_lines 501 (begin (codes "f") new_function_state)) ≡ [])
      ↔ (501 ≤ base_trigger (codes "f") * 2 ^ 1))
    × (check
          (codes "a.cc")
          9
          1
          (end_function (count_lines 501 (begin (codes "f") new_function_state)))
        ≡ [])
check-begin_example = check-begin (codes "a.cc") (codes "f") 9 1 501 new_function_state

abbrev long_function : FunctionState
long_function = record {
  in_a_function = true;
  lines_in_function = 1200;
  current_function = codes "f";
}

check-confidence_example :
    All
      (λ (r : Report). (1 ≤ r.confidence) × (r.confidence ≤ 5))
      (check (codes "a.cc") 9 1 long_function)
check-confidence_example = check-confidence (codes "a.cc") 9 1 long_function (omega arith)
