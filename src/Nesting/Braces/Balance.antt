-- ===== src/Nesting/Braces/Balance.antt =====
-- The loop over the braces of a line, where these are balanced.
use falcon_link.Prelude.{
  ℕ, suc, ◌<◌, ◌≡◌, refl, sym, ap, ◌∙◌, ◌⊎◌, inl, inr, true, false, ◌||◌, Option, none, some, List,
  [], ◌∷◌, ◌++◌, append-nil, append_assoc, arith, all, codes, Text, ltb, ◌==◌, Bool-cases, length,
}
use mathlib.Core.Option
use falcon_link.CleansedLines.{CleansedLines}
use falcon_link.CleansedLines.Quotes.{no_newline}
use falcon_link.Report.{Report}
use falcon_link.Regex.{contains}
use falcon_link.Nesting.{Block, NestingState, seen_open_brace}
use falcon_link.Nesting.Update.{with_stack, still_there, pop, match_asm}
use falcon_link.Nesting.Blocks.{check_end, starts}
use falcon_link.Nesting.Braces.{
  after_step, abandon, end_block, braced, extern_pattern, open_brace, brace_step, consume_braces,
}
use falcon_link.Nesting.Braces.First.{is_brace}
use falcon_link.Nesting.Braces.Walk.{walk, consume_braces-walk}

-- The texts whose braces are balanced: other letters, and blocks one in another or one behind another.
pub data Balanced : Text → Type 0 where
  empty_text : Balanced []
  letter_then :
      (c : ℕ) (t : Text) → (c == b'{' || c == b'}') ≡ false → Balanced t → Balanced (c ∷ t)
  block_then :
      (a b : Text) {t : Text} → t ≡ b'{' ∷ (a ++ b'}' ∷ b) → Balanced a → Balanced b → Balanced t

-- The mark of the object that `previous_stack_top` names is dropped where it is not on the stack.
abbrev pub settle : NestingState → NestingState
settle s = record s { previous_at = still_there (length s.nesting.stack) s.previous_at }

-- The state, but for that mark.
abbrev pub Settles : NestingState → NestingState → Type 0
Settles s s' = (s' ≡ s) ⊎ (s' ≡ settle s)

still_there-once : (n : ℕ) (p : Option ℕ) → still_there n (still_there n p) ≡ still_there n p
unfolding still_there
still_there-once n none = refl
still_there-once n (some k) = elim (Bool-cases (ltb k n)) [
  | inl t ↦ rw t (rw t refl)
  | inr f ↦ rw f refl
]

still_there-suc : (n : ℕ) (p : Option ℕ) → still_there n (still_there (suc n) p) ≡ still_there n p
unfolding still_there
still_there-suc n none = refl
still_there-suc n (some k) = elim (Bool-cases (ltb k (suc n))) [
  | inl t ↦ rw t refl
  | inr f ↦ let g : ltb k n ≡ false = ground (arith, f) in rw (f, g) refl
]

settled : (s s' : NestingState) → Settles (settle s) s' → s' ≡ settle s
settled s s' (inl e) = e
settled s s' (inr e) =
    e
    ∙ ap (λ p. record s { previous_at = p })
        (still_there-once (length s.nesting.stack) s.previous_at)

after_nothing :
    (s : NestingState) (k : NestingState → Option (NestingState × List Report))
    → after_step (some (s, [])) k ≡ k s
after_nothing s k = map_same (k s)
  where
    map_same :
        (o : Option (NestingState × List Report))
        → Option.map (λ (r : NestingState × List Report). (r.0, [] ++ r.1)) o ≡ o
    map_same none = refl
    map_same (some (s', reports)) = refl

pub braced-facts :
    (filename : Text) (lines : CleansedLines) (linenum n : ℕ) (from : Text)
    → ((braced n from).seen_open_brace ≡ true)
      × (check_end filename lines linenum (braced n from) ≡ some [])
unfolding braced check_end
braced-facts filename lines linenum n from = elim (Bool-cases (starts extern_pattern from)) [
  | inl t ↦ rw t (refl, refl)
  | inr f ↦ elim (Bool-cases (starts match_asm from)) [
    | inl t ↦ rw (f, t) (refl, refl)
    | inr g ↦ rw (f, g) (refl, refl)
  ]
]

pub open_brace-seen :
    (n : ℕ) (from : Text) (stack : List Block)
    → seen_open_brace stack ≡ true
    → open_brace n from stack ≡ braced n from ∷ stack
unfolding open_brace seen_open_brace
open_brace-seen n from [] h = refl
open_brace-seen n from (b ∷ stack) h = simp (h, open_brace)

pub abandon-seen :
    (s : NestingState) (stack : List Block)
    → seen_open_brace stack ≡ true
    → abandon s stack ≡ some s
unfolding abandon
abandon-seen s stack h = rw h

module _ (filename : Text) (lines : CleansedLines) (linenum : ℕ) where
  step_letter :
      (c : ℕ) (from : Text) (s : NestingState)
      → (c == b'{' || c == b'}') ≡ false
      → is_brace c ≡ true
      → seen_open_brace s.nesting.stack ≡ true
      → brace_step filename lines linenum c from s ≡ some (s, [])
  unfolding brace_step codes contains
  step_letter c from s other brace seen =
      let no_open : (c == b'{') ≡ false = ground arith in
      let ends : (c == b';' || c == b')') ≡ true = ground arith in
      rw (no_open, ends, brace_step) (rw (abandon-seen s s.nesting.stack seen))

  step_open :
      (from : Text) (s : NestingState)
      → seen_open_brace s.nesting.stack ≡ true
      → brace_step filename lines linenum b'{' from s
        ≡ some (with_stack (braced linenum from ∷ s.nesting.stack) s, [])
  unfolding brace_step
  step_open from s seen =
      ap (λ (stack : List Block). some (with_stack stack s, []))
        (open_brace-seen linenum from s.nesting.stack seen)

  step_close :
      (from : Text) (n : ℕ) (before : Text) (s s' : NestingState)
      → Settles (with_stack (braced n before ∷ s.nesting.stack) s) s'
      → brace_step filename lines linenum b'}' from s' ≡ some (settle s, [])
  unfolding brace_step end_block pop
  step_close from n before s s' (inl e) =
      let (_, silent) = braced-facts filename lines linenum n before in
      rw e (rw (silent, end_block) refl)
  step_close from n before s s' (inr e) =
      let (_, silent) = braced-facts filename lines linenum n before in
      rw e (
        rw (silent, end_block)
          (ap (λ (p : Option ℕ). some (record s { previous_at = p }, []))
            (still_there-suc (length s.nesting.stack) s.previous_at)))

  -- The walk comes out of a balanced text in the state in which it went in, but for the mark.
  walk-Balanced :
      (t : Text) (from rest : Text) (s : NestingState)
      → Balanced t
      → seen_open_brace s.nesting.stack ≡ true
      → (from' : Text) × (s' : NestingState) × Settles s s'
        × (walk filename lines linenum from (t ++ rest) s
            ≡ walk filename lines linenum from' rest s')
  unfolding walk codes contains seen_open_brace braced
  walk-Balanced t from rest s empty_text seen = (from, s, inl refl, refl)
  walk-Balanced t from rest s (letter_then c u other h) seen = elim (Bool-cases (is_brace c)) [
    | inl brace ↦
        let (from', s', q, e) = walk-Balanced u (u ++ rest) rest s h seen in
        (
          from',
          s',
          q,
          rw (brace, walk)
              (rw (step_letter c from s other brace seen)
                (after_nothing s (walk filename lines linenum (u ++ rest) (u ++ rest)) ∙ e)),
        )
    | inr none_of_them ↦
        let (from', s', q, e) = walk-Balanced u from rest s h seen in
        (from', s', q, rw (none_of_them, walk) e)
  ]
  walk-Balanced t from rest s (block_then a b e ha hb) seen =
      let s1 = with_stack (braced linenum from ∷ s.nesting.stack) s in
      let inside = (a ++ b'}' ∷ b) ++ rest in
      let middle = b'}' ∷ (b ++ rest) in
      let (f1, s2, q1, e1) =
        walk-Balanced a inside middle s1 ha (braced-facts filename lines linenum linenum from).0 in
      let (f2, s3, q2, e2) = walk-Balanced b (b ++ rest) rest (settle s) hb seen in
      let opened =
        ap (λ o. after_step o (walk filename lines linenum inside inside)) (step_open from s seen)
        ∙ after_nothing s1 (walk filename lines linenum inside inside) in
      let closed =
        ap (λ o. after_step o (walk filename lines linenum (b ++ rest) (b ++ rest)))
          (step_close f1 linenum from s s2 q1)
        ∙ after_nothing (settle s) (walk filename lines linenum (b ++ rest) (b ++ rest)) in
      (
        f2,
        s3,
        inr (settled s s3 q2),
        ap (λ (u : Text). walk filename lines linenum from (u ++ rest) s) e
            ∙ opened
            ∙ ap (λ (u : Text). walk filename lines linenum inside u s1)
                (append_assoc a (b'}' ∷ b) rest)
            ∙ e1
            ∙ closed
            ∙ e2,
      )

Settles-same :
    (s s' : NestingState)
    → Settles s s'
    → (s'.nesting ≡ s.nesting) × (s'.previous_stack_top ≡ s.previous_stack_top)
Settles-same s s' (inl e) = rw e (refl, refl)
Settles-same s s' (inr e) = rw e (refl, refl)

-- On the rest of a line that has no newline and has balanced braces, from a state whose innermost block
-- has seen its brace, and with fuel for more than the letters, the loop over the braces returns; the stack
-- of blocks, the preprocessor stack and the previous top are as they were, and nothing is reported.
pub consume_braces-Balanced :
    (filename : Text) (lines : CleansedLines) (linenum fuel : ℕ) (line : Text) (s : NestingState)
    → all no_newline line ≡ true
    → Balanced line
    → length line < fuel
    → seen_open_brace s.nesting.stack ≡ true
    → (s' : NestingState) × (consume_braces fuel filename lines linenum line s ≡ some (s', []))
      × (s'.nesting ≡ s.nesting)
      × (s'.previous_stack_top ≡ s.previous_stack_top)
unfolding walk
consume_braces-Balanced filename lines linenum fuel line s one_line h lt seen =
    let (from, s', q, e) = walk-Balanced filename lines linenum line line [] s h seen in
    (
      s',
      consume_braces-walk filename lines linenum fuel line s one_line lt
          ∙ ap (λ (u : Text). walk filename lines linenum line u s) (sym (append-nil line))
          ∙ e,
      (Settles-same s s' q).0,
      (Settles-same s s' q).1,
    )
