-- ===== src/Preprocessor.antt =====
-- The preprocessor stack of NestingState (build_support/cpplint.py): _PreprocessorInfo and
-- UpdatePreprocessor. The blocks on the nesting stack are of any type; copies, deep or not, are values.
pub mod Groups
use falcon_link.Prelude.{
  ◌+◌, ◌-◌, ◌*◌, ◌/◌, ◌%◌, ◌^◌, ◌≤◌, ◌<◌, ◌≡◌, ◌∙◌, ◌≡⟨◌⟩◌, ◌∎, ◌≢◌, ◌↔◌, ◌⊎◌, Bool, true, false,
  not, ◌&&◌, ◌||◌, none, some, List, [], ◌∷◌, ◌++◌, any, Text, ◌==◌, if◌then◌else◌,
}
use falcon_link.Regex.{Regex, start, star, space, one, word, boundary, group, ◌▸◌, ◌∣◌, match_start}

-- _PreprocessorInfo
pub record PreprocessorInfo {ℓ} (Block : Type ℓ) : Type ℓ where
  pub stack_before_if : List Block
  pub stack_before_else : List Block
  pub seen_else : Bool

-- The fields `stack` and `pp_stack` of NestingState, tops first.
pub record Nesting {ℓ} (Block : Type ℓ) : Type ℓ where
  pub stack : List Block
  pub pp_stack : List (PreprocessorInfo Block)

-- ^\s*#\s*(if|ifdef|ifndef)\b
pub if_line : Regex
unfolding word
if_line =
    start
    ▸ star space
    ▸ one b'#'
    ▸ star space
    ▸ group 1 (word "if" ∣ word "ifdef" ∣ word "ifndef")
    ▸ boundary

-- ^\s*#\s*(else|elif)\b
pub else_line : Regex
unfolding word
else_line =
    start ▸ star space ▸ one b'#' ▸ star space ▸ group 1 (word "else" ∣ word "elif") ▸ boundary

-- ^\s*#\s*endif\b
pub endif_line : Regex
unfolding word
endif_line = start ▸ star space ▸ one b'#' ▸ star space ▸ word "endif" ▸ boundary

-- Which of the three conditions holds for the line.
pub data Directive : Type 0 where
  opening alternative closing no_directive : Directive

unfoldable pub directive : Text → Directive
unfolding match_start if_line else_line endif_line
directive line = elim (match_start if_line line) [
  | some _ ↦ opening
  | none ↦ elim (match_start else_line line) [
    | some _ ↦ alternative
    | none ↦ elim (match_start endif_line line) [ some _ ↦ closing | none ↦ no_directive ]
  ]
]

module _ {ℓ} {Block : Type ℓ} where
  pub at_if : Nesting Block → Nesting Block
  at_if s = record s {
    pp_stack =
        record { stack_before_if = s.stack; stack_before_else = []; seen_else = false }
        ∷ s.pp_stack;
  }

  unfoldable pub at_else : List Block → List (PreprocessorInfo Block) → Nesting Block
  at_else stack [] = record { stack = stack; pp_stack = [] }
  at_else stack (top ∷ pp) = record {
    stack = top.stack_before_if;
    pp_stack =
        (if top.seen_else then top else record top { seen_else = true; stack_before_else = stack })
        ∷ pp;
  }

  unfoldable pub at_endif : List Block → List (PreprocessorInfo Block) → Nesting Block
  at_endif stack [] = record { stack = stack; pp_stack = [] }
  at_endif stack (top ∷ pp) = record {
    stack = if top.seen_else then top.stack_before_else else stack;
    pp_stack = pp;
  }

  -- UpdatePreprocessor
  unfoldable pub update_preprocessor : Text → Nesting Block → Nesting Block
  unfolding directive at_if at_else at_endif
  update_preprocessor line s = elim (directive line) [
    | opening ↦ at_if s
    | alternative ↦ at_else s.stack s.pp_stack
    | closing ↦ at_endif s.stack s.pp_stack
    | no_directive ↦ s
  ]
