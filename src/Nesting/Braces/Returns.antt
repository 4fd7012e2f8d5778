-- ===== src/Nesting/Braces/Returns.antt =====
-- NestingState.Update returns on every line of a file.
use falcon_link.Prelude.{
  ℕ, zero, suc, ◌+◌, ◌<◌, ◌≡◌, refl, inl, inr, not, ◌&&◌, ◌||◌, Option, some, List, [], ◌∷◌, ◌++◌,
  arith, Text, ◌==◌, Bool-cases, Option-cases, length, get_or, All-append, get_elem?-some,
}
use falcon_link.Regex.{Found, match_start, one_of, none_of, start, star, group, dot}
use falcon_link.Regex.Least.{least, EndsIn, ends_here, ends_behind, last_group}
use falcon_link.RawStrings.{group_text}
use falcon_link.Report.{Report}
use falcon_link.CleansedLines.{CleansedLines}
use falcon_link.CleansedLines.Copies.{SameLengths}
use falcon_link.Nesting.{Block, NestingState, ClassInfo, class_of}
use falcon_link.Nesting.Blocks.{starts, blank_pattern}
use falcon_link.Nesting.Blocks.Returns.{BeginsWithin, ReportsWithin, check_end-Returns}
use falcon_link.Nesting.Update.{still_there, map_top, begin_line, count_parentheses, with_stack}
use falcon_link.Nesting.Update.Returns.{
  StackWithin, StateWithin, begin_line-StateWithin, count_parentheses-StackWithin,
  namespaces-Returns, declare_class-Returns, begin_block-Returns,
}
use falcon_link.Nesting.Braces.{
  abandon, end_block, access_pattern, access_reports, access_of_class, update_access, brace_pattern,
  braced, open_brace, brace_step, consume_braces, declare, update_line, update,
}

access_reports-ReportsWithin :
    (n : ℕ) (filename : Text) (linenum : ℕ) (c : ClassInfo) (m : Found)
    → linenum < n
    → ReportsWithin n (access_reports filename linenum c m)
unfolding access_reports
access_reports-ReportsWithin n filename linenum c m lt =
    elim (Bool-cases (
      not (length (group_text m 1) == c.class_indent + 1)
      && starts blank_pattern (group_text m 1))) [ inl t ↦ rw t (lt, tt) | inr f ↦ rw f tt ]

access_of_class-ReportsWithin :
    (n : ℕ) (filename : Text) (linenum : ℕ) (line : Text) (b : Block) (c : ClassInfo)
    → linenum < n
    → BeginsWithin n b
    → BeginsWithin n (access_of_class filename linenum line b c).0
      × ReportsWithin n (access_of_class filename linenum line b c).1
unfolding access_of_class
access_of_class-ReportsWithin n filename linenum line b c lt h =
    elim (Option-cases (match_start access_pattern line)) [
      | inl e ↦ rw (e, access_of_class) (h, tt)
      | inr (m, e) ↦
          rw (e, access_of_class) (h, access_reports-ReportsWithin n filename linenum c m lt)
    ]

update_access-StackWithin :
    (n : ℕ) (filename : Text) (linenum : ℕ) (line : Text) (stack : List Block)
    → linenum < n
    → StackWithin n stack
    → StackWithin n (update_access filename linenum line stack).0
      × ReportsWithin n (update_access filename linenum line stack).1
unfolding update_access
update_access-StackWithin n filename linenum line [] lt h = (tt, tt)
update_access-StackWithin n filename linenum line (b ∷ stack) lt (hb, h) =
    elim (Option-cases (class_of b)) [
      | inl e ↦ rw (e, update_access) ((hb, h), tt)
      | inr (c, e) ↦
          let (hb', hr) = access_of_class-ReportsWithin n filename linenum line b c lt hb in
          rw (e, update_access) ((hb', h), hr)
    ]

braced-BeginsWithin :
    (n linenum : ℕ) (line : Text) → linenum < n → BeginsWithin n (braced linenum line)
unfolding braced
braced-BeginsWithin n linenum line lt = ground arith

open_brace-StackWithin :
    (n linenum : ℕ) (line : Text) (stack : List Block)
    → linenum < n
    → StackWithin n stack
    → StackWithin n (open_brace linenum line stack)
unfolding open_brace
open_brace-StackWithin n linenum line [] lt h = (braced-BeginsWithin n linenum line lt, tt)
open_brace-StackWithin n linenum line (b ∷ stack) lt (hb, h) = elim (Bool-cases b.seen_open_brace) [
  | inl t ↦ rw t (braced-BeginsWithin n linenum line lt, (hb, h))
  | inr f ↦ rw f (hb, h)
]

brace_pattern-EndsIn : EndsIn 2 1 brace_pattern
unfolding brace_pattern least one_of none_of
brace_pattern-EndsIn = ends_behind start 1 (
    ends_behind (star (none_of "{;)}")) 1
      (ends_behind (group 1 (one_of "{;)}")) 0 (ends_here 2 (star dot))))

-- A step that returns keeps all blocks and reports in the file.
abbrev Kept : ℕ → Option (NestingState × List Report) → Type 0
Kept n o =
    (s' : NestingState) × (reports : List Report) × (o ≡ some (s', reports))
    × StateWithin n s'.nesting
    × ReportsWithin n reports

abandon-StateWithin :
    (n : ℕ) (s : NestingState) (stack : List Block)
    → StateWithin n s.nesting
    → StackWithin n stack
    → (s' : NestingState) × (abandon s stack ≡ some s') × StateWithin n s'.nesting
unfolding abandon
abandon-StateWithin n s [] hs h = (s, refl, hs)
abandon-StateWithin n s (b ∷ stack) hs (hb, h) = elim (Bool-cases b.seen_open_brace) [
  | inl t ↦ (s, simp (t, abandon), hs)
  | inr f ↦ (
    record (with_stack stack s) { previous_at = still_there (length stack) s.previous_at },
    simp (f, abandon),
    (h, hs.1),
  )
]

module _ (filename : Text) (lines : CleansedLines) (same : SameLengths lines) (linenum : ℕ)
    (within : linenum < lines.num_lines) where
  end_block-Kept :
      (s : NestingState) (stack : List Block)
      → StateWithin lines.num_lines s.nesting
      → StackWithin lines.num_lines stack
      → Kept lines.num_lines (end_block filename lines linenum s stack)
  unfolding end_block
  end_block-Kept s [] hs h = (s, [], refl, hs, tt)
  end_block-Kept s (b ∷ stack) hs (hb, h) =
      let (reports, e, hr) = check_end-Returns lines same linenum within filename b in
      (
        record (with_stack stack s) { previous_at = still_there (length stack) s.previous_at },
        reports,
        rw (e, end_block),
        (h, hs.1),
        hr,
      )

  brace_step-Kept :
      (token : ℕ) (line : Text) (s : NestingState)
      → StateWithin lines.num_lines s.nesting
      → Kept lines.num_lines (brace_step filename lines linenum token line s)
  unfolding brace_step
  brace_step-Kept token line s h = elim (Bool-cases (token == b'{')) [
    | inl t ↦ (
      with_stack (open_brace linenum line s.nesting.stack) s,
      [],
      rw (t, brace_step),
      (open_brace-StackWithin lines.num_lines linenum line s.nesting.stack within h.0, h.1),
      tt,
    )
    | inr f ↦ elim (Bool-cases (token == b';' || token == b')')) [
      | inl t ↦
          let (s', e, h') = abandon-StateWithin lines.num_lines s s.nesting.stack h h.0 in
          (s', [], rw (f, t, e, brace_step), h', tt)
      | inr g ↦
          let (s', reports, e, kept, r) = end_block-Kept s s.nesting.stack h h.0 in
          (s', reports, rw (f, g, brace_step) e, kept, r)
    ]
  ]

  pub consume_braces-Kept :
      (fuel : ℕ) (line : Text) (s : NestingState)
      → length line < fuel
      → StateWithin lines.num_lines s.nesting
      → Kept lines.num_lines (consume_braces fuel filename lines linenum line s)
  unfolding consume_braces
  consume_braces-Kept zero line s lt h = absurd (omega arith)
  consume_braces-Kept (suc fuel) line s lt h =
      elim (Option-cases (match_start brace_pattern line)) [
        | inl e ↦ (s, [], rw (e, consume_braces), h, tt)
        | inr (m, e) ↦
            let (s1, first, e1, h1, r1) = brace_step-Kept (get_or (group_text m 1) 0 0) line s h in
            let shorter = last_group brace_pattern line m brace_pattern-EndsIn e in
            let (s2, more, e2, h2, r2) =
              consume_braces-Kept fuel (group_text m 2) s1 (omega (arith, shorter)) h1 in
            (
              s2,
              first ++ more,
              rw (e, consume_braces) (rw e1 (rw e2)),
              h2,
              All-append (λ (r : Report). r.linenum < lines.num_lines) first more r1 r2,
            )
      ]

  declare-Returns :
      (line : Text) (stack : List Block)
      → StackWithin lines.num_lines stack
      → (stack' : List Block) × (rest : Text) × (reports : List Report) × (declare filename lines
            linenum line stack
          ≡ some (stack', rest, reports))
        × StackWithin lines.num_lines stack'
        × ReportsWithin lines.num_lines reports
  unfolding declare
  declare-Returns line stack h =
      let h0 = count_parentheses-StackWithin lines.num_lines line stack h in
      let (stack1, line1, e1, h1) =
        namespaces-Returns lines.num_lines (length line + 1) linenum line
          (map_top (count_parentheses line) stack) within (omega arith) h0 in
      let (stack2, line2, e2, h2) =
        declare_class-Returns lines same linenum within line1 stack1 h1 in
      let (stack3, e3, h3) = begin_block-Returns lines same linenum within stack2 h2 in
      let (h4, r4) =
        update_access-StackWithin lines.num_lines filename linenum line2 stack3 within h3 in
      (
        (update_access filename linenum line2 stack3).0,
        line2,
        (update_access filename linenum line2 stack3).1,
        rw (e1, declare) (rw e2 (rw e3)),
        h4,
        r4,
      )

  update_line-Kept :
      (line : Text) (s : NestingState)
      → StateWithin lines.num_lines s.nesting
      → Kept lines.num_lines (update_line filename lines linenum line s)
  unfolding update_line
  update_line-Kept line s h =
      let (stack, rest, first, e1, h1, r1) = declare-Returns line s.nesting.stack h.0 in
      let (s', more, e2, h2, r2) =
        consume_braces-Kept (length rest + 1) rest (with_stack stack s) (omega arith) (h1, h.1) in
      (
        s',
        first ++ more,
        rw (e1, update_line) (rw e2),
        h2,
        All-append (λ (r : Report). r.linenum < lines.num_lines) first more r1 r2,
      )

-- On copies of one length and a line of the file, from a state whose blocks, saved ones too, begin on lines
-- of the file, Update returns: its loops end and no index is out of range, nor is an empty stack popped. The
-- blocks of the state behind it begin on lines of the file too, and its reports are about lines of the file.
pub update-Returns :
    (filename : Text) (lines : CleansedLines) (linenum : ℕ) (s : NestingState)
    → SameLengths lines
    → linenum < lines.num_lines
    → StateWithin lines.num_lines s.nesting
    → (s' : NestingState) × (reports : List Report) × (update filename lines linenum s
        ≡ some (s', reports))
      × StateWithin lines.num_lines s'.nesting
      × ReportsWithin lines.num_lines reports
unfolding update
update-Returns filename lines linenum s same within h =
    let (line, here) = get_elem?-some lines.elided linenum (omega (arith, same.elided)) in
    let (s', reports, e, kept, r) =
      update_line-Kept filename lines same linenum within line (begin_line line s)
        (begin_line-StateWithin lines.num_lines line s h) in
    (s', reports, rw (here, update) e, kept, r)
