-- ===== src/Examples/Nesting.antt =====
-- Blocks of C++ code: namespaces, classes and braces.
use falcon_link.Prelude.{
  ◌<◌, ◌≡◌, refl, true, some, List, [], ◌∷◌, arith, all, codes, text_eq, find, count, is_space,
  Text, length,
}
use falcon_link.Report.{Report, report}
use falcon_link.CleansedLines.{CleansedLines, cleanse_lines}
use falcon_link.CleansedLines.Copies.{SameLengths}
use falcon_link.CleansedLines.Quotes.{no_newline}
use falcon_link.Nesting.{NestingState, new_nesting_state, new_block, plain, seen_open_brace}
use falcon_link.Nesting.Blocks.Returns.{ReportsWithin}
use falcon_link.Nesting.Update.{with_stack}
use falcon_link.Nesting.Update.Returns.{StateWithin}
use falcon_link.Nesting.Braces.{update, consume_braces}
use falcon_link.Nesting.Braces.Returns.{update-Returns}
use falcon_link.Nesting.Braces.Walk.{walk, consume_braces-walk}
use falcon_link.Nesting.Braces.Balance.{
  Balanced, letter_then, block_then, empty_text, consume_braces-Balanced,
}
use falcon_link.Nesting.Braces.Levels.{levels, AllSeen, consume_braces-levels}
use falcon_link.Nesting.Files.{nesting_reports, nesting_reports-Returns}

abbrev source : List Text
source =
    codes "namespace a {"
    ∷ codes "class B : public C {"
    ∷ codes "public:"
    ∷ codes "  void f() { g({}); }"
    ∷ codes "};"
    ∷ codes "class D;"
    ∷ codes "struct E {"
    ∷ []

abbrev copies : CleansedLines
copies = record {
  elided = source;
  lines = source;
  raw_lines = source;
  num_lines = 7;
  lines_without_raw_strings = source;
}

copies-SameLengths : SameLengths copies
copies-SameLengths = record {
  elided = refl;
  lines = refl;
  raw_lines = refl;
  without_raw_strings = refl;
}

copies_made : cleanse_lines source ≡ some copies
unfolding cleanse_lines codes is_space text_eq
copies_made = refl

abbrev file : Text
file = codes "a.cc"

reported :
    nesting_reports file copies
    ≡ some (
        report file 2 "whitespace/indent" 3
          (codes "public: should be indented +1 space inside class B")
        ∷ report file 0 "build/namespaces" 5
            (codes "Failed to find complete declaration of namespace a")
        ∷ report file 6 "build/class" 5 (codes "Failed to find complete declaration of class E")
        ∷ [])
unfolding nesting_reports codes is_space text_eq count find
reported = refl

nesting_reports-Returns_example :
    (c : CleansedLines) × (reports : List Report) × (cleanse_lines source ≡ some c)
    × (nesting_reports file c ≡ some reports)
    × (c.num_lines ≡ length source)
    × ReportsWithin (length source) reports
nesting_reports-Returns_example = nesting_reports-Returns file source

-- A state within a function.
abbrev inside : NestingState
inside = with_stack (new_block plain 1 true ∷ []) new_nesting_state

inside-StateWithin : StateWithin 7 inside.nesting
inside-StateWithin = ((omega arith, tt), tt)

update-Returns_example :
    (s' : NestingState) × (reports : List Report) × (update file copies 3 inside
      ≡ some (s', reports))
    × StateWithin 7 s'.nesting
    × ReportsWithin 7 reports
update-Returns_example =
    update-Returns file copies 3 inside copies-SameLengths (omega arith) inside-StateWithin

abbrev braces : Text
braces = codes "a{b{;}}c"

braces_one_line : all no_newline braces ≡ true
unfolding all codes
braces_one_line = refl

braces_fuel : length braces < 9
unfolding codes
braces_fuel = omega arith

consume_braces-walk_example :
    consume_braces 9 file copies 3 braces inside ≡ walk file copies 3 braces braces inside
consume_braces-walk_example =
    consume_braces-walk file copies 3 9 braces inside braces_one_line braces_fuel

braces-Balanced : Balanced braces
unfolding codes
braces-Balanced = letter_then b'a' _ refl (
    block_then (codes "b{;}") (codes "c") refl
      (letter_then b'b' _ refl
        (block_then (codes ";") [] refl (letter_then b';' [] refl empty_text) empty_text))
      (letter_then b'c' [] refl empty_text))

inside_seen : seen_open_brace inside.nesting.stack ≡ true
unfolding seen_open_brace
inside_seen = refl

consume_braces-Balanced_example :
    (s' : NestingState) × (consume_braces 9 file copies 3 braces inside ≡ some (s', []))
    × (s'.nesting ≡ inside.nesting)
    × (s'.previous_stack_top ≡ inside.previous_stack_top)
consume_braces-Balanced_example =
    consume_braces-Balanced file copies 3 9 braces inside braces_one_line braces-Balanced
      braces_fuel inside_seen

-- One brace more is closed than is opened.
abbrev unbalanced : Text
unbalanced = codes "{}}}{"

unbalanced-levels : levels unbalanced 1 ≡ 1
unfolding levels codes
unbalanced-levels = refl

unbalanced_one_line : all no_newline unbalanced ≡ true
unfolding all codes
unbalanced_one_line = refl

unbalanced_fuel : length unbalanced < 6
unfolding codes
unbalanced_fuel = omega arith

consume_braces-levels_example :
    (s' : NestingState) × (reports : List Report) × (consume_braces 6 file copies 3 unbalanced
        inside
      ≡ some (s', reports))
    × (length s'.nesting.stack ≡ levels unbalanced 1)
    × AllSeen s'.nesting.stack
consume_braces-levels_example =
    consume_braces-levels file copies 3 6 unbalanced inside copies-SameLengths (omega arith)
      inside-StateWithin unbalanced_one_line unbalanced_fuel (refl, tt)
