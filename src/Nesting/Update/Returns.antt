-- ===== src/Nesting/Update/Returns.antt =====
-- The parts of Update before the braces return, and the blocks on the stacks begin on lines of the file.
use falcon_link.Prelude.{
  ℕ, zero, suc, ◌+◌, ◌≤◌, ◌<◌, ◌≡◌, refl, inl, inr, ◌||◌, some, List, [], ◌∷◌, arith, codes, find,
  Text, ◌==◌, Bool-cases, Option-cases, length, length-drop, All,
}
use falcon_link.Regex.{
  match_start, start, star, space, word, boundary, opt, group, plus, letter, is_word, dot,
}
use falcon_link.Regex.Least.{least, EndsIn, ends_here, ends_behind, last_group}
use falcon_link.RawStrings.{group_text}
use falcon_link.CleansedLines.{CleansedLines}
use falcon_link.CleansedLines.Copies.{SameLengths}
use falcon_link.Preprocessor.{
  Nesting, PreprocessorInfo, Directive, opening, alternative, closing, no_directive, directive,
  at_if, at_else, at_endif, update_preprocessor,
}
use falcon_link.Nesting.{Block, NestingState}
use falcon_link.Nesting.Blocks.Returns.{BeginsWithin, check_begin-Returns, new_class-Returns}
use falcon_link.Nesting.Templates.Returns.{in_template_argument_list-Returns}
use falcon_link.Nesting.Update.{
  map_top, begin_line, count_parentheses, namespace_decl, open_namespace, namespaces, class_decl,
  no_parentheses, declare_class, begin_block,
}

-- Every block on the stack, and on each stack that the preprocessor saved, begins on a line of the file.
abbrev pub StackWithin : ℕ → List Block → Type 0
StackWithin n stack = All (BeginsWithin n) stack

abbrev pub SavedWithin : ℕ → PreprocessorInfo Block → Type 0
SavedWithin n info = StackWithin n info.stack_before_if × StackWithin n info.stack_before_else

abbrev pub StateWithin : ℕ → Nesting Block → Type 0
StateWithin n s = StackWithin n s.stack × All (SavedWithin n) s.pp_stack

at_else-StateWithin :
    (n : ℕ) (stack : List Block) (pp : List (PreprocessorInfo Block))
    → StackWithin n stack
    → All (SavedWithin n) pp
    → StateWithin n (at_else stack pp)
unfolding at_else
at_else-StateWithin n stack [] h hs = (h, tt)
at_else-StateWithin n stack (top ∷ pp) h ((hi, he), hs) = elim (Bool-cases top.seen_else) [
  | inl e ↦ (hi, (rw e (hi, he), hs))
  | inr e ↦ (hi, (rw e (hi, h), hs))
]

at_endif-StateWithin :
    (n : ℕ) (stack : List Block) (pp : List (PreprocessorInfo Block))
    → StackWithin n stack
    → All (SavedWithin n) pp
    → StateWithin n (at_endif stack pp)
unfolding at_endif
at_endif-StateWithin n stack [] h hs = (h, tt)
at_endif-StateWithin n stack (top ∷ pp) h ((hi, he), hs) = elim (Bool-cases top.seen_else) [
  | inl e ↦ (rw e he, hs)
  | inr e ↦ (rw e h, hs)
]

update_preprocessor-StateWithin :
    (n : ℕ) (line : Text) (s : Nesting Block)
    → StateWithin n s
    → StateWithin n (update_preprocessor line s)
unfolding update_preprocessor
update_preprocessor-StateWithin n line s h = of_directive (directive line) refl
  where
    of_directive : (d : Directive) → directive line ≡ d → StateWithin n (update_preprocessor line s)
    of_directive opening e = rw (e, update_preprocessor, at_if) (h.0, ((h.0, tt), h.1))
    of_directive alternative e =
        rw (e, update_preprocessor) (at_else-StateWithin n s.stack s.pp_stack h.0 h.1)
    of_directive closing e =
        rw (e, update_preprocessor) (at_endif-StateWithin n s.stack s.pp_stack h.0 h.1)
    of_directive no_directive e = rw (e, update_preprocessor) h

pub begin_line-StateWithin :
    (n : ℕ) (line : Text) (s : NestingState)
    → StateWithin n s.nesting
    → StateWithin n (begin_line line s).nesting
unfolding begin_line
begin_line-StateWithin n line s h = update_preprocessor-StateWithin n line s.nesting h

pub count_parentheses-StackWithin :
    (n : ℕ) (line : Text) (stack : List Block)
    → StackWithin n stack
    → StackWithin n (map_top (count_parentheses line) stack)
unfolding map_top count_parentheses
count_parentheses-StackWithin n line [] h = tt
count_parentheses-StackWithin n line (b ∷ stack) h = h

namespace_decl-EndsIn : EndsIn 2 9 namespace_decl
unfolding namespace_decl least word
namespace_decl-EndsIn = ends_behind start 9 (
    ends_behind (star space) 9 (
      ends_behind (word "namespace") 0 (
        ends_behind boundary 0 (
          ends_behind (star space) 0 (
            ends_behind (opt (group 1 (plus (letter (λ c. c == b':' || is_word c))))) 0
              (ends_here 2 (star dot)))))))

open_namespace-rest :
    (name : Text) (linenum : ℕ) (rest : Text)
    → length (open_namespace name linenum rest).1 ≤ length rest
unfolding open_namespace
open_namespace-rest name linenum rest = elim (Option-cases (find rest (codes "{"))) [
  | inl e ↦ rw (e, open_namespace) (omega arith)
  | inr (i, e) ↦ rw (e, open_namespace) (omega (arith, length-drop {0} (i + 1) rest))
]

open_namespace-BeginsWithin :
    (n : ℕ) (name : Text) (linenum : ℕ) (rest : Text)
    → linenum < n
    → BeginsWithin n (open_namespace name linenum rest).0
unfolding open_namespace
open_namespace-BeginsWithin n name linenum rest lt = elim (Option-cases (find rest (codes "{"))) [
  | inl e ↦ rw (e, open_namespace) lt
  | inr (i, e) ↦ rw (e, open_namespace) lt
]

pub namespaces-Returns :
    (n fuel linenum : ℕ) (line : Text) (stack : List Block)
    → linenum < n
    → length line < fuel
    → StackWithin n stack
    → (stack' : List Block) × (rest : Text) × (namespaces fuel linenum line stack
        ≡ some (stack', rest))
      × StackWithin n stack'
unfolding namespaces
namespaces-Returns n zero linenum line stack lt enough h = absurd (omega arith)
namespaces-Returns n (suc fuel) linenum line stack lt enough h =
    elim (Option-cases (match_start namespace_decl line)) [
      | inl e ↦ (stack, line, rw (e, namespaces), h)
      | inr (m, e) ↦
          let opened = open_namespace (group_text m 1) linenum (group_text m 2) in
          let shorter = last_group namespace_decl line m namespace_decl-EndsIn e in
          let (stack', rest, q, h') =
            namespaces-Returns n fuel linenum opened.1 (opened.0 ∷ stack) lt
              (omega
                (arith, shorter, open_namespace-rest (group_text m 1) linenum (group_text m 2)))
              (open_namespace-BeginsWithin n (group_text m 1) linenum (group_text m 2) lt, h) in
          (stack', rest, rw (e, namespaces) q, h')
    ]

module _ (lines : CleansedLines) (same : SameLengths lines) (linenum : ℕ)
    (within : linenum < lines.num_lines) where
  pub declare_class-Returns :
      (line : Text) (stack : List Block)
      → StackWithin lines.num_lines stack
      → (stack' : List Block) × (rest : Text) × (declare_class lines linenum line stack
          ≡ some (stack', rest))
        × StackWithin lines.num_lines stack'
  unfolding declare_class
  declare_class-Returns line stack h = elim (Option-cases (match_start class_decl line)) [
    | inl e ↦ (stack, line, rw (e, declare_class), h)
    | inr (m, e) ↦ elim (Bool-cases (no_parentheses stack)) [
      | inr f ↦ (stack, line, rw (e, declare_class) (rw f), h)
      | inl t ↦
          let (b, q) =
            in_template_argument_list-Returns lines same linenum (length (group_text m 1)) in
          elim (Bool-cases b) [
            | inl yes_b ↦ (stack, line, rw (e, declare_class) (rw (t, q) (rw yes_b)), h)
            | inr no_b ↦
                let (block, made, begins) =
                  new_class-Returns lines same linenum within (group_text m 3) (group_text m 2) in
                (
                  block ∷ stack,
                  group_text m 4,
                  rw (e, declare_class) (rw (t, q) (rw no_b (rw made))),
                  (begins, h),
                )
          ]
    ]
  ]

  pub begin_block-Returns :
      (stack : List Block)
      → StackWithin lines.num_lines stack
      → (stack' : List Block) × (begin_block lines linenum stack ≡ some stack')
        × StackWithin lines.num_lines stack'
  unfolding begin_block
  begin_block-Returns [] h = ([], refl, tt)
  begin_block-Returns (b ∷ stack) (hb, h) = elim (Bool-cases b.seen_open_brace) [
    | inl t ↦ (b ∷ stack, rw (t, begin_block), (hb, h))
    | inr f ↦
        let (b', q, hb') = check_begin-Returns lines same linenum within b hb in
        (b' ∷ stack, simp (f, q, begin_block), (hb', h))
  ]
