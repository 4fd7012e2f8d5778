-- ===== src/Emit/Effects.antt =====
-- What a report does to the state: it is counted and shown once, or nothing changes.
use falcon_link.Prelude.{
  ℕ, ◌+◌, ◌≡◌, refl, Bool, true, false, not, ◌&&◌, Option, none, some, List, [], ◌∷◌, arith, Text,
  leb, if◌then◌else◌, length, length-append,
}
use falcon_link.Report.{Report}
use falcon_link.Nolint.{Suppressions, is_error_suppressed_by_nolint}
use falcon_link.LintState.{LintState, increment_error_count, print_error, add_junit_failure}
use falcon_link.LintState.Filters.{Configured, kept}
use falcon_link.Emit.Filtering.{should_print_error_lem, excludes, last_fit}
use falcon_link.Emit.{emit, error_handler, vs7_message, eclipse_message, emacs_message}

-- The number of reports that the state has shown: messages on stderr, and recorded failures.
abbrev pub shown : LintState → ℕ
shown s = length s.stderr + length s.junit_failures + length s.junit_errors

increment-same :
    (c : Text) (s : LintState)
    → (shown (increment_error_count c s) ≡ shown s)
      × ((increment_error_count c s).error_count ≡ s.error_count + 1)
      × ((increment_error_count c s).filters ≡ s.filters)
      × ((increment_error_count c s).filters_backup ≡ s.filters_backup)
unfolding increment_error_count
increment-same c s = ground arith

emit_lem :
    (r : Report) (s : LintState)
    → (shown (emit r s) ≡ shown s + 1)
      × ((emit r s).error_count ≡ s.error_count + 1)
      × ((emit r s).filters ≡ s.filters)
      × ((emit r s).filters_backup ≡ s.filters_backup)
unfolding emit print_error add_junit_failure
emit_lem r s =
    let c = increment_error_count r.category s in
    ground (
      arith,
      increment-same r.category s,
      length-append {0} c.stderr (vs7_message r ∷ []),
      length-append {0} c.stderr (eclipse_message r ∷ []),
      length-append {0} c.stderr (emacs_message r ∷ []),
      length-append {0} c.junit_errors (vs7_message r ∷ []),
      length-append {0} c.junit_failures (
          record {
            filename = r.filename;
            linenum = r.linenum;
            message = r.message;
            category = r.category;
            confidence = r.confidence;
          }
          ∷ []),
    )

-- The reports of a run, one after the other, under the tables in force.
abbrev pub handle_all : Suppressions → List Report → LintState → Option LintState
handle_all sup [] s = some s
handle_all sup (r ∷ rs) s = elim (error_handler sup r s) [
  | none ↦ none
  | some t ↦ handle_all sup rs t
]

-- The state after one report: as it was, or with the report counted and shown.
printed : Bool → Report → LintState → LintState
printed b r s = if b then emit r s else s

printed_lem :
    (b : Bool) (r : Report) (s : LintState)
    → ((printed b r s).error_count + shown s ≡ s.error_count + shown (printed b r s))
      × ((printed b r s).filters ≡ s.filters)
      × ((printed b r s).filters_backup ≡ s.filters_backup)
unfolding printed
printed_lem true r s = let e = emit_lem r s in (omega (arith, e.0, e.1), e.2, e.3)
printed_lem false r s = (refl, refl, refl)

error_handler-printed :
    (sup : Suppressions) (r : Report) (s : LintState)
    → Configured s
    → (b : Bool) × (error_handler sup r s ≡ some (printed b r s))
unfolding error_handler printed
error_handler-printed sup r s c = (
  not (is_error_suppressed_by_nolint r.category r.linenum sup)
      && (leb s.verbose_level r.confidence && not (excludes (last_fit r.category s.filters))),
  rw (error_handler, should_print_error_lem r.category r.confidence r.linenum sup s c),
)

-- However many reports are made, no assertion on the filters fails, and as many errors are counted as
-- are shown on stderr or recorded for the JUnit report.
pub error_handler_run :
    (sup : Suppressions) (rs : List Report) (s : LintState)
    → Configured s
    → (t : LintState) × (handle_all sup rs s ≡ some t)
      × (t.error_count + shown s ≡ s.error_count + shown t)
error_handler_run sup [] s c = (s, refl, refl)
error_handler_run sup (r ∷ rs) s c =
    let (b, e) = error_handler-printed sup r s c in
    let (counts, f, g) = printed_lem b r s in
    let (t, q, more) = error_handler_run sup rs (printed b r s) (kept c f g) in
    (t, rw (e, handle_all) q, omega (arith, counts, more))
