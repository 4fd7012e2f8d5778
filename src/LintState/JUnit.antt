-- ===== src/LintState/JUnit.antt =====
-- FormatJUnitXML (build_support/cpplint.py). The tree that it builds is a value of `Suite`; writing
-- out XML, `xml.etree.ElementTree.tostring`, is a parameter.
pub mod Grouping
use falcon_link.Prelude.{
  ℕ, ◌+◌, ◌-◌, ◌*◌, ◌/◌, ◌%◌, ◌^◌, ◌≤◌, ◌<◌, ◌≡◌, ◌∙◌, ◌≡⟨◌⟩◌, ◌∎, ◌≢◌, ◌↔◌, ◌⊎◌, ◌&&◌, ◌||◌,
  Option, List, [], ◌∷◌, ◌++◌, map, codes, join, decimal, Text, ltb, ◌==◌, if◌then◌else◌, length,
  get_or,
}
use falcon_link.Dict.{Dict, get, put, member, text_keys}
use falcon_link.LintState.{LintState, Failure}
use mathlib.Core.Option.{get_or as option_or}

-- A test case: passed, the errors of the run, or the failures of one file. The text is that of its
-- `error` or `failure` element.
pub data TestCase : Type 0 where
  passed : TestCase
  errors : Text → TestCase
  failures : Text → Text → TestCase

-- The `testsuite` element: the attributes `errors`, `failures` and `tests`, and its children.
pub record Suite : Type 0 where
  pub num_errors : ℕ
  pub num_failures : ℕ
  pub num_tests : ℕ
  pub cases : List TestCase

-- `failed_file_order` and `failures_by_file`
pub record Groups : Type 0 where
  pub order : List Text
  pub by_file : Dict Text (List Failure)

-- One round of the loop over `self._junit_failures`.
pub group_failure : Failure → Groups → Groups
unfolding get put member
group_failure f g =
    let g1 =
      if member f.filename g.order
      then g
      else record g { order = g.order ++ f.filename ∷ []; by_file = put g.by_file f.filename [] } in
    record g1 {
      by_file = put g1.by_file f.filename (option_or (get g1.by_file f.filename) [] ++ f ∷ []);
    }

pub group_failures : List Failure → Groups → Groups
unfolding group_failure
group_failures [] g = g
group_failures (f ∷ fs) g = group_failures fs (group_failure f g)

-- '{0}: {1} [{2}] [{3}]'.format(f[1], f[2], f[3], f[4])
pub failure_text : Failure → Text
unfolding decimal
failure_text f =
    decimal f.linenum
    ++ (codes ": "
        ++ (f.message
            ++ (codes " ["
                ++ (f.category ++ (codes "] [" ++ (decimal f.confidence ++ codes "]"))))))

abbrev pub no_groups : Groups
no_groups = record { order = []; by_file = [] }

pub file_case : Groups → Text → TestCase
unfolding get join failure_text
file_case g file =
    failures file (join (codes "\n") (map failure_text (option_or (get g.by_file file) [])))

unfoldable pub junit_suite : LintState → Suite
unfolding group_failures file_case join
junit_suite s =
    let num_errors = length s.junit_errors in
    let num_failures = length s.junit_failures in
    if num_errors == 0 && num_failures == 0
    then record { num_errors = 0; num_failures = 0; num_tests = 1; cases = passed ∷ [] }
    else let groups = group_failures s.junit_failures no_groups in
      record {
        num_errors = num_errors;
        num_failures = num_failures;
        num_tests = num_errors + num_failures;
        cases =
            (if ltb 0 num_errors then errors (join (codes "\n") s.junit_errors) ∷ [] else [])
            ++ (if ltb 0 num_failures then map (file_case groups) groups.order else []);
      }

-- FormatJUnitXML, with `to_string` for the library's writer
unfoldable pub format_junit_xml : (Suite → Text) → LintState → Text
unfolding junit_suite
format_junit_xml to_string s =
    codes "<?xml version=\"1.0\" encoding=\"UTF-8\" ?>\n" ++ to_string (junit_suite s)
