-- ===== src/Nesting/Braces.antt =====
-- The second half of NestingState.Update (build_support/cpplint.py): the access control, the braces,
-- and the whole.
pub mod Returns
pub mod First
pub mod Walk
pub mod Balance
pub mod Levels
use falcon_link.Prelude.{
  ℕ, zero, suc, ◌+◌, ◌-◌, ◌*◌, ◌/◌, ◌%◌, ◌^◌, ◌≤◌, ◌<◌, ◌≡◌, ◌∙◌, ◌≡⟨◌⟩◌, ◌∎, ◌≢◌, ◌↔◌, ◌⊎◌, inl,
  true, not, ◌&&◌, ◌||◌, Option, none, some, List, [], ◌∷◌, ◌++◌, map, codes, count, Text, ◌==◌,
  if◌then◌else◌, length, get_elem?, get_or, take,
}
use mathlib.Core.Option
use falcon_link.Regex.{
  Regex, one, one_of, none_of, word, boundary, star, plus, opt, dot, space, start, finish, group,
  ◌▸◌, ◌∣◌, Found, match_start,
}
use falcon_link.Report.{Report, report}
use falcon_link.RawStrings.{group_text}
use falcon_link.CleansedLines.{CleansedLines}
use falcon_link.Nesting.{
  Block, NestingState, ClassInfo, Kind, class_info, plain, extern_c, namespace_info, block_asm,
  new_block, new_extern_c, seen_open_brace, class_of,
}
use falcon_link.Nesting.Blocks.{check_end, blank_pattern, class_title, starts}
use falcon_link.Nesting.Update.{
  with_stack, map_top, pop, begin_line, match_asm, count_parentheses, namespaces, declare_class,
  begin_block,
}

-- ^(.*)\b(public|private|protected|signals)(\s+(?:slots\s*)?)?:(?:[^:]|$)
pub access_pattern : Regex
unfolding word none_of
access_pattern =
    start
    ▸ group 1 (star dot)
    ▸ boundary
    ▸ group 2 (word "public" ∣ word "private" ∣ word "protected" ∣ word "signals")
    ▸ opt (group 3 (plus space ▸ opt (word "slots" ▸ star space)))
    ▸ one b':'
    ▸ (none_of ":" ∣ finish)

-- What is said of the indent of an access keyword.
pub access_reports : Text → ℕ → ClassInfo → Found → List Report
unfolding starts blank_pattern class_title
access_reports filename linenum c m =
    let indent = group_text m 1 in
    if not (length indent == c.class_indent + 1) && starts blank_pattern indent
    then report filename linenum "whitespace/indent" 3 (
        group_text m 2
        ++ (group_text m 3 ++ (codes ": should be indented +1 space inside " ++ class_title c)))
      ∷ []
    else []

pub access_of_class : Text → ℕ → Text → Block → ClassInfo → Block × List Report
unfolding match_start access_pattern access_reports
access_of_class filename linenum line b c = elim (match_start access_pattern line) [
  | none ↦ (b, [])
  | some m ↦ (
    record b { kind = class_info (record c { access = group_text m 2 }) },
    access_reports filename linenum c m,
  )
]

-- The access control, where the innermost block is a class.
unfoldable pub update_access : Text → ℕ → Text → List Block → List Block × List Report
unfolding class_of access_of_class
update_access filename linenum line [] = ([], [])
update_access filename linenum line (b ∷ stack) = elim (class_of b) [
  | none ↦ (b ∷ stack, [])
  | some c ↦ let (b', reports) = access_of_class filename linenum line b c in (b' ∷ stack, reports)
]

-- ^[^{;)}]*([{;)}])(.*)$
pub brace_pattern : Regex
unfolding one_of none_of
brace_pattern =
    start ▸ star (none_of "{;)}") ▸ group 1 (one_of "{;)}") ▸ group 2 (star dot) ▸ finish

-- ^extern\s*"[^"]*"\s*\{
pub extern_pattern : Regex
unfolding word none_of
extern_pattern =
    start
    ▸ word "extern"
    ▸ star space
    ▸ one b'"'
    ▸ star (none_of "\"")
    ▸ one b'"'
    ▸ star space
    ▸ one b'{'

-- The block that an opening brace pushes.
pub braced : ℕ → Text → Block
unfolding starts extern_pattern match_asm
braced linenum line =
    if starts extern_pattern line
    then new_extern_c linenum
    else if starts match_asm line
    then record (new_block plain linenum true) { inline_asm = block_asm }
    else new_block plain linenum true

-- An opening brace: it is that of the innermost block, or of a new one.
unfoldable pub open_brace : ℕ → Text → List Block → List Block
unfolding braced
open_brace linenum line [] = braced linenum line ∷ []
open_brace linenum line (b ∷ stack) =
    if b.seen_open_brace
    then braced linenum line ∷ b ∷ stack
    else record b { seen_open_brace = true } ∷ stack

-- At a semicolon or a closing parenthesis a block whose brace was not seen is given up.
unfoldable pub abandon : NestingState → List Block → Option NestingState
unfolding seen_open_brace pop
abandon s stack = if seen_open_brace stack then some s else pop s stack

-- At a closing brace the checks at the end of the block are run.
unfoldable pub end_block :
    Text → CleansedLines → ℕ → NestingState → List Block → Option (NestingState × List Report)
unfolding check_end pop
end_block filename clean_lines linenum s [] = some (s, [])
end_block filename clean_lines linenum s (b ∷ stack) =
    elim (check_end filename clean_lines linenum b) [
      | none ↦ none
      | some reports ↦ Option.map (λ s'. (s', reports)) (pop s (b ∷ stack))
    ]

-- One round of the loop: the letter, and the line up to which it was read.
unfoldable pub brace_step :
    Text → CleansedLines → ℕ → ℕ → Text → NestingState → Option (NestingState × List Report)
unfolding open_brace abandon end_block
brace_step filename clean_lines linenum token line s =
    if token == b'{'
    then some (with_stack (open_brace linenum line s.nesting.stack) s, [])
    else if token == b';' || token == b')'
    then Option.map (λ s'. (s', [])) (abandon s s.nesting.stack)
    else end_block filename clean_lines linenum s s.nesting.stack

-- The reports of a step stand before those of what follows.
abbrev pub after_step :
    Option (NestingState × List Report)
    → (NestingState → Option (NestingState × List Report))
    → Option (NestingState × List Report)
after_step none k = none
after_step (some (s, reports)) k = Option.map (λ r. (r.0, reports ++ r.1)) (k s)

-- The loop. Each round takes a letter, so that the letters of the line are fuel enough.
unfoldable pub consume_braces :
    ℕ → Text → CleansedLines → ℕ → Text → NestingState → Option (NestingState × List Report)
unfolding match_start brace_pattern brace_step
consume_braces zero filename clean_lines linenum line s = none
consume_braces (suc fuel) filename clean_lines linenum line s =
    elim (match_start brace_pattern line) [
      | none ↦ some (s, [])
      | some m ↦
          after_step (brace_step filename clean_lines linenum (get_or (group_text m 1) 0 0) line s)
            (consume_braces fuel filename clean_lines linenum (group_text m 2))
    ]

-- What comes before the braces: the stack, the rest of the line and the reports.
unfoldable pub declare :
    Text → CleansedLines → ℕ → Text → List Block → Option (List Block × Text × List Report)
unfolding map_top count_parentheses namespaces declare_class begin_block update_access
declare filename clean_lines linenum line stack =
    elim (namespaces (length line + 1) linenum line (map_top (count_parentheses line) stack)) [
      | none ↦ none
      | some (stack1, line1) ↦ elim (declare_class clean_lines linenum line1 stack1) [
        | none ↦ none
        | some (stack2, line2) ↦ elim (begin_block clean_lines linenum stack2) [
          | none ↦ none
          | some stack3 ↦
              let (stack4, reports) = update_access filename linenum line2 stack3 in
              some (stack4, line2, reports)
        ]
      ]
    ]

-- The parts of Update behind UpdatePreprocessor.
unfoldable pub update_line :
    Text → CleansedLines → ℕ → Text → NestingState → Option (NestingState × List Report)
unfolding declare consume_braces
update_line filename clean_lines linenum line s =
    elim (declare filename clean_lines linenum line s.nesting.stack) [
      | none ↦ none
      | some (stack, rest, reports) ↦
          after_step (some (with_stack stack s, reports))
            (consume_braces (length rest + 1) filename clean_lines linenum rest)
    ]

-- Update
unfoldable pub update :
    Text → CleansedLines → ℕ → NestingState → Option (NestingState × List Report)
unfolding begin_line update_line
update filename clean_lines linenum s = elim (get_elem? clean_lines.elided linenum) [
  | none ↦ none
  | some line ↦ update_line filename clean_lines linenum line (begin_line line s)
]
