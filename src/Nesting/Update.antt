-- ===== src/Nesting/Update.antt =====
-- NestingState.Update (build_support/cpplint.py), part by part in its order. A part gives `none` for
-- an exception (an IndexError), or where a loop's fuel runs out.
pub mod Returns
use falcon_link.Prelude.{
  ℕ, zero, suc, ◌+◌, ◌-◌, ◌*◌, ◌/◌, ◌%◌, ◌^◌, ◌≤◌, ◌<◌, ◌≡◌, ◌∙◌, ◌≡⟨◌⟩◌, ◌∎, ◌≢◌, ◌↔◌, ◌⊎◌, inl,
  Bool, true, false, not, ◌&&◌, ◌||◌, Option, none, some, List, [], ◌∷◌, ◌++◌, map, codes, find,
  count, replace, is_space, Text, ltb, leb, ◌==◌, if◌then◌else◌, length, set, take, drop,
}
use falcon_link.Prelude.Int.{ℤ, pos, change, is_ℕ}
use falcon_link.Regex.{
  Regex, letter, one, one_of, none_of, word, word_letter, is_word, contains, boundary, star, plus,
  opt, dot, space, start, finish, group, ◌▸◌, ◌∣◌, Found, match_start, group_of,
}
use falcon_link.Report.{Report, report}
use falcon_link.RawStrings.{group_text}
use falcon_link.CleansedLines.{CleansedLines}
use falcon_link.Preprocessor.{
  Nesting, PreprocessorInfo, Directive, opening, alternative, closing, no_directive, directive,
  update_preprocessor,
}
use falcon_link.Nesting.{
  Block, NestingState, Kind, ClassInfo, plain, extern_c, class_info, namespace_info, Asm, no_asm,
  inside_asm, end_asm, block_asm, new_block, new_extern_c, new_namespace, new_class,
  seen_open_brace, class_of,
}
use falcon_link.Nesting.Blocks.{check_begin, check_end, blank_pattern, class_title, starts}
use falcon_link.Nesting.Templates.{in_template_argument_list}

-- The state with another stack.
abbrev pub with_stack : List Block → NestingState → NestingState
with_stack stack s = record s { nesting = record s.nesting { stack = stack } }

-- `f` on the top of the stack, if there is one.
unfoldable pub map_top : (Block → Block) → List Block → List Block
map_top f [] = []
map_top f (b ∷ stack) = f b ∷ stack

-- The height of an item, while it is still_there the given one.
unfoldable pub still_there : ℕ → Option ℕ → Option ℕ
still_there n none = none
still_there n (some k) = if ltb k n then some k else none

-- `self.stack.pop()`; from an empty list it is an IndexError.
unfoldable pub pop : NestingState → List Block → Option NestingState
unfolding still_there
pop s [] = none
pop s (b ∷ stack) =
    some (record (with_stack stack s) { previous_at = still_there (length stack) s.previous_at })

-- `self.previous_stack_top` is set.
pub remember : NestingState → List Block → NestingState
remember s [] = record s { previous_stack_top = none; previous_at = none }
remember s (b ∷ stack) = record s { previous_stack_top = some b; previous_at = some (length stack) }

-- UpdatePreprocessor puts a copy in the place of the stack.
pub replaces_stack : Directive → List (PreprocessorInfo Block) → Bool
replaces_stack d [] = false
replaces_stack d (top ∷ pp) = elim d [
  | opening ↦ false
  | alternative ↦ true
  | closing ↦ top.seen_else
  | no_directive ↦ false
]

-- The calls up to UpdatePreprocessor.
unfoldable pub begin_line : Text → NestingState → NestingState
unfolding remember replaces_stack update_preprocessor directive
begin_line line s =
    let s' = remember s s.nesting.stack in
    record s' {
      nesting = update_preprocessor line s.nesting;
      previous_at =
          if replaces_stack (directive line) s.nesting.pp_stack then none else s'.previous_at;
    }

-- ^\s*(?:asm|_asm|__asm|__asm__)(?:\s+(volatile|__volatile__))?\s*[{(]
unfoldable pub match_asm : Regex
unfolding word one_of
match_asm =
    start
    ▸ star space
    ▸ (word "asm" ∣ word "_asm" ∣ word "__asm" ∣ word "__asm__")
    ▸ opt (plus space ▸ group 1 (word "volatile" ∣ word "__volatile__"))
    ▸ star space
    ▸ one_of "{("

-- The state of the inline assembly; whether the line changes the depth, and the depth behind it.
unfoldable pub next_asm : Text → Bool → ℤ → Asm → Asm
unfolding starts match_asm
next_asm line changed depth no_asm =
    if changed && is_ℕ depth 1 && starts match_asm line then inside_asm else no_asm
next_asm line changed depth end_asm =
    if changed && is_ℕ depth 1 && starts match_asm line then inside_asm else no_asm
next_asm line changed depth inside_asm = if is_ℕ depth 0 then end_asm else inside_asm
next_asm line changed depth block_asm = block_asm

-- The parentheses of the line are counted in the innermost block.
unfoldable pub count_parentheses : Text → Block → Block
unfolding count next_asm
count_parentheses line b =
    let opened = count line (codes "(") in
    let closed = count line (codes ")") in
    let depth = change b.open_parentheses opened closed in
    record b {
      open_parentheses = depth;
      inline_asm = next_asm line (not (opened == closed)) depth b.inline_asm;
    }

-- ^\s*namespace\b\s*([:\w]+)?(.*)$
pub namespace_decl : Regex
unfolding word
namespace_decl =
    start
    ▸ star space
    ▸ word "namespace"
    ▸ boundary
    ▸ star space
    ▸ opt (group 1 (plus (letter (λ c. c == b':' || is_word c))))
    ▸ group 2 (star dot)
    ▸ finish

-- The namespace with the rest of its line: its brace is seen if there is one there.
pub open_namespace : Text → ℕ → Text → Block × Text
unfolding find
open_namespace name linenum rest = elim (find rest (codes "{")) [
  | none ↦ (new_namespace name linenum, rest)
  | some i ↦ (record (new_namespace name linenum) { seen_open_brace = true }, drop (i + 1) rest)
]

-- The loop over the namespaces at the beginning of the line. Each takes its keyword, so that the
-- letters of the line are fuel enough.
unfoldable pub namespaces : ℕ → ℕ → Text → List Block → Option (List Block × Text)
unfolding match_start namespace_decl open_namespace
namespaces zero linenum line stack = none
namespaces (suc fuel) linenum line stack = elim (match_start namespace_decl line) [
  | none ↦ some (stack, line)
  | some m ↦
      let (block, rest) = open_namespace (group_text m 1) linenum (group_text m 2) in
      namespaces fuel linenum rest (block ∷ stack)
]

-- ^(\s*(?:template\s*<[\w\s<>,:=]*>\s*)?(class|struct)\s+(?:[A-Z_]+\s+)*(\w+(?:::\w+)*))(.*)$
pub class_decl : Regex
unfolding word
class_decl =
    start
    ▸ group 1 (
        star space
        ▸ opt (
            word "template"
            ▸ star space
            ▸ one b'<'
            ▸ star (letter (λ c. is_word c || is_space c || contains c (codes "<>,:=")))
            ▸ one b'>'
            ▸ star space)
        ▸ group 2 (word "class" ∣ word "struct")
        ▸ plus space
        ▸ star (plus (letter (λ c. (leb b'A' c && leb c b'Z') || c == b'_')) ▸ plus space)
        ▸ group 3 (plus word_letter ▸ star (word "::" ▸ plus word_letter)))
    ▸ group 4 (star dot)
    ▸ finish

-- `not self.stack or self.stack[-1].open_parentheses == 0`
pub no_parentheses : List Block → Bool
no_parentheses [] = true
no_parentheses (b ∷ stack) = is_ℕ b.open_parentheses 0

-- The class declaration in what is left of the line.
unfoldable pub declare_class : CleansedLines → ℕ → Text → List Block → Option (List Block × Text)
unfolding match_start class_decl no_parentheses in_template_argument_list new_class
declare_class clean_lines linenum line stack = elim (match_start class_decl line) [
  | none ↦ some (stack, line)
  | some m ↦
      if no_parentheses stack
      then elim (in_template_argument_list clean_lines linenum (length (group_text m 1))) [
        | none ↦ none
        | some true ↦ some (stack, line)
        | some false ↦ elim (new_class (group_text m 3) (group_text m 2) clean_lines linenum) [
          | none ↦ none
          | some block ↦ some (block ∷ stack, group_text m 4)
        ]
      ]
      else some (stack, line)
]

-- `if not self.SeenOpenBrace(): self.stack[-1].CheckBegin(...)`
unfoldable pub begin_block : CleansedLines → ℕ → List Block → Option (List Block)
unfolding check_begin
begin_block clean_lines linenum [] = some []
begin_block clean_lines linenum (b ∷ stack) =
    if b.seen_open_brace
    then some (b ∷ stack)
    else elim (check_begin clean_lines linenum b) [ none ↦ none | some b' ↦ some (b' ∷ stack) ]
