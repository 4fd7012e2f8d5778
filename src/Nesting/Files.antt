-- ===== src/Nesting/Files.antt =====
-- The nesting state over the lines of a file (ProcessFileData and ProcessLine, build_support/cpplint.py).
use falcon_link.Prelude.{
  ℕ, zero, suc, ◌+◌, ◌≤◌, ◌<◌, ◌≡◌, refl, sym, ap, subst, ◌∙◌, Option, some, List, [], ◌++◌, arith,
  Text, length, All-append,
}
use falcon_link.Prelude.Options.{◌>>=◌}
use falcon_link.Report.{Report}
use falcon_link.CleansedLines.{CleansedLines, cleanse_lines}
use falcon_link.CleansedLines.Copies.{SameLengths, cleanse_lines-SameLengths}
use falcon_link.Nesting.{NestingState, new_nesting_state, check_completed_blocks}
use falcon_link.Nesting.Blocks.Returns.{ReportsWithin, incomplete_blocks-ReportsWithin}
use falcon_link.Nesting.Update.Returns.{StateWithin}
use falcon_link.Nesting.Braces.{update}
use falcon_link.Nesting.Braces.Returns.{update-Returns}

-- The calls of Update for a number of lines from one on, and their reports.
unfoldable pub update_lines :
    ℕ → Text → CleansedLines → ℕ → NestingState → Option (NestingState × List Report)
unfolding update
update_lines zero filename clean_lines line s = some (s, [])
update_lines (suc rounds) filename clean_lines line s = update filename clean_lines line s >>= λ r.
    update_lines rounds filename clean_lines (line + 1) r.0 >>= λ q. some (q.0, r.1 ++ q.1)

-- What the nesting state reports of a file: for each line, and of the blocks that are open at the end.
unfoldable pub nesting_reports : Text → CleansedLines → Option (List Report)
unfolding update_lines check_completed_blocks
nesting_reports filename clean_lines =
    update_lines clean_lines.num_lines filename clean_lines 0 new_nesting_state >>= λ r.
    some (r.1 ++ check_completed_blocks filename r.0)

update_lines-Returns :
    (rounds : ℕ) (filename : Text) (c : CleansedLines) (line : ℕ) (s : NestingState)
    → SameLengths c
    → line + rounds ≤ c.num_lines
    → StateWithin c.num_lines s.nesting
    → (s' : NestingState) × (reports : List Report) × (update_lines rounds filename c line s
        ≡ some (s', reports))
      × StateWithin c.num_lines s'.nesting
      × ReportsWithin c.num_lines reports
unfolding update_lines
update_lines-Returns zero filename c line s same le h = (s, [], refl, h, tt)
update_lines-Returns (suc rounds) filename c line s same le h =
    let (s1, first, e1, h1, r1) = update-Returns filename c line s same (omega arith) h in
    let (s2, more, e2, h2, r2) =
      update_lines-Returns rounds filename c (line + 1) s1 same (omega arith) h1 in
    (
      s2,
      first ++ more,
      rw (e1, update_lines) (rw e2),
      h2,
      All-append (λ (r : Report). r.linenum < c.num_lines) first more r1 r2,
    )

-- For every list of lines the copies are made, and the nesting state gets through all of them and the check of
-- the blocks that are open at the end, with no exception and with loops that end; each report is about a
-- line of the list.
pub nesting_reports-Returns :
    (filename : Text) (lines : List Text)
    → (c : CleansedLines) × (reports : List Report) × (cleanse_lines lines ≡ some c)
      × (nesting_reports filename c ≡ some reports)
      × (c.num_lines ≡ length lines)
      × ReportsWithin (length lines) reports
unfolding nesting_reports check_completed_blocks
nesting_reports-Returns filename lines =
    let (c, made, raw, same) = cleanse_lines-SameLengths lines in
    let (s, reports, e, h, r) =
      update_lines-Returns c.num_lines filename c 0 new_nesting_state same (omega arith) (tt, tt) in
    let many : c.num_lines ≡ length lines = sym same.raw_lines ∙ ap (length {0}) raw in
    let all_of =
      All-append (λ (r : Report). r.linenum < c.num_lines) reports
        (check_completed_blocks filename s) r
        (incomplete_blocks-ReportsWithin c.num_lines filename s.nesting.stack h.0) in
    (
      c,
      reports ++ check_completed_blocks filename s,
      made,
      rw (e, nesting_reports),
      many,
      subst (λ (n : ℕ). ReportsWithin n (reports ++ check_completed_blocks filename s)) many all_of,
    )
