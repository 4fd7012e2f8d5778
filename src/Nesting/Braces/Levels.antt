-- ===== src/Nesting/Braces/Levels.antt =====
-- The height of the stack of blocks is the level that the braces of a line give.
use falcon_link.Prelude.{
  ℕ, ◌+◌, ◌-◌, ◌<◌, ◌≡◌, refl, sym, ap, subst, ◌∙◌, inl, inr, true, false, ◌||◌, Option, none, some,
  List, [], ◌∷◌, ◌++◌, arith, all, codes, Text, ◌==◌, if◌then◌else◌, Bool-cases, Option-cases,
  none-ne-some, length, All,
}
use mathlib.Core.Option
use falcon_link.CleansedLines.{CleansedLines}
use falcon_link.CleansedLines.Copies.{SameLengths}
use falcon_link.CleansedLines.Quotes.{no_newline}
use falcon_link.Report.{Report}
use falcon_link.Regex.{contains}
use falcon_link.Nesting.{Block, NestingState, seen_open_brace}
use falcon_link.Nesting.Update.{with_stack, pop}
use falcon_link.Nesting.Update.Returns.{StateWithin}
use falcon_link.Nesting.Blocks.{check_end}
use falcon_link.Nesting.Braces.{after_step, end_block, open_brace, brace_step, consume_braces}
use falcon_link.Nesting.Braces.First.{is_brace}
use falcon_link.Nesting.Braces.Walk.{walk, consume_braces-walk}
use falcon_link.Nesting.Braces.Balance.{braced-facts, abandon-seen, open_brace-seen}
use falcon_link.Nesting.Braces.Returns.{consume_braces-Kept}

-- An opening brace goes one level up and a closing one goes one down, but not still_there the lowest.
unfoldable pub levels : Text → ℕ → ℕ
levels [] n = n
levels (c ∷ t) n = levels t (if c == b'{' then n + 1 else if c == b'}' then n - 1 else n)

abbrev pub AllSeen : List Block → Type 0
AllSeen stack = All (λ (b : Block). b.seen_open_brace ≡ true) stack

-- The height of the stack, where all its blocks have seen their brace.
abbrev At : ℕ → NestingState → Type 0
At n s = (length s.nesting.stack ≡ n) × AllSeen s.nesting.stack

AllSeen-top : (stack : List Block) → AllSeen stack → seen_open_brace stack ≡ true
unfolding seen_open_brace
AllSeen-top [] h = refl
AllSeen-top (b ∷ stack) h = h.0

map-eq-some :
    {A B : Type 0} (f : A → B) (o : Option A) (b : B)
    → Option.map f o ≡ some b
    → (a : A) × (o ≡ some a) × (f a ≡ b)
map-eq-some f none b h = absurd (none-ne-some h)
map-eq-some f (some a) b h = (a, refl, cc)

after_step-eq-some :
    (o : Option (NestingState × List Report))
    (k : NestingState → Option (NestingState × List Report)) (s' : NestingState) (out : List Report)
    → after_step o k ≡ some (s', out)
    → (s : NestingState) × (first : List Report) × (more : List Report) × (o ≡ some (s, first))
      × (k s ≡ some (s', more))
after_step-eq-some none k s' out h = absurd (none-ne-some h)
after_step-eq-some (some (s, first)) k s' out h =
    let (r, e, q) =
      map-eq-some (λ (r : NestingState × List Report). (r.0, first ++ r.1)) (k s) (s', out) h in
    let q0 : r.0 ≡ s' = ap (λ (p : NestingState × List Report). p.0) q in
    (s, first, r.1, refl, e ∙ ap (λ (u : NestingState). some (u, r.1)) q0)

same_state :
    {s s' : NestingState} {a b : List Report}
    → ◌≡◌ {A = Option (NestingState × List Report)} (some (s, a)) (some (s', b))
    → s ≡ s'
same_state e = cc

module _ (filename : Text) (lines : CleansedLines) (linenum : ℕ) where
  open_brace-At :
      (from : Text) (s : NestingState)
      → AllSeen s.nesting.stack
      → At (length s.nesting.stack + 1) (with_stack (open_brace linenum from s.nesting.stack) s)
  open_brace-At from s seen =
      rw (open_brace-seen linenum from s.nesting.stack (AllSeen-top s.nesting.stack seen))
        (omega arith, ((braced-facts filename lines linenum linenum from).0, seen))

  end_block-At :
      (s : NestingState) (stack : List Block) (s' : NestingState) (out : List Report)
      → At (length stack) s
      → AllSeen stack
      → end_block filename lines linenum s stack ≡ some (s', out)
      → At (length stack - 1) s'
  unfolding end_block pop
  end_block-At s [] s' out h seen e = subst (At 0) (same_state e) h
  end_block-At s (b ∷ stack) s' out h seen e =
      elim (Option-cases (check_end filename lines linenum b)) [
        | inl q ↦ absurd (none-ne-some (rw (q, end_block) at e))
        | inr (reports, q) ↦
            subst (At (length (b ∷ stack) - 1)) (same_state (rw (q, end_block) at e))
              (omega arith, seen.1)
      ]

  brace_step-At :
      (c : ℕ) (from : Text) (s s' : NestingState) (out : List Report)
      → is_brace c ≡ true
      → AllSeen s.nesting.stack
      → brace_step filename lines linenum c from s ≡ some (s', out)
      → At (levels (c ∷ []) (length s.nesting.stack)) s'
  unfolding brace_step levels codes contains
  brace_step-At c from s s' out brace seen e = elim (Bool-cases (c == b'{')) [
    | inl t ↦ rw t (
        subst (At (length s.nesting.stack + 1)) (same_state (rw (t, brace_step) at e))
          (open_brace-At from s seen))
    | inr f ↦ elim (Bool-cases (c == b';' || c == b')')) [
      | inl t ↦
          let q : ◌≡◌ {A = Option (NestingState × List Report)} (some (s, [])) (some (s', out)) =
            sym (rw (abandon-seen s s.nesting.stack (AllSeen-top s.nesting.stack seen)))
            ∙ (rw (f, t, brace_step) at e) in
          let no_close : (c == b'}') ≡ false = ground arith in
          rw (f, no_close) (subst (At (length s.nesting.stack)) (same_state q) (refl, seen))
      | inr g ↦
          let close : (c == b'}') ≡ true = ground arith in
          rw (f, close)
            (end_block-At s s.nesting.stack s' out (refl, seen) seen (rw (f, g, brace_step) at e))
    ]
  ]

  walk-At :
      (from t : Text) (s s' : NestingState) (out : List Report)
      → AllSeen s.nesting.stack
      → walk filename lines linenum from t s ≡ some (s', out)
      → At (levels t (length s.nesting.stack)) s'
  unfolding walk levels codes contains
  walk-At from [] s s' out seen e = subst (At (length s.nesting.stack)) (same_state e) (refl, seen)
  walk-At from (c ∷ t) s s' out seen e = elim (Bool-cases (is_brace c)) [
    | inl brace ↦
        let (s1, first, more, e1, e2) =
          after_step-eq-some (brace_step filename lines linenum c from s)
            (walk filename lines linenum t t) s' out (rw (brace, walk) at e) in
        let h1 = brace_step-At c from s s1 first brace seen e1 in
        let h2 = walk-At t t s1 s' more h1.1 e2 in subst (λ (n : ℕ). At (levels t n) s') h1.0 h2
    | inr other ↦
        let h = walk-At from t s s' out seen (rw (other, walk) at e) in
        let n = length s.nesting.stack in
        let q : (if c == b'{' then n + 1 else if c == b'}' then n - 1 else n) ≡ n = ground arith in
        subst (λ (k : ℕ). At (levels t k) s') (sym q) h
  ]

-- On copies of one length and a line of the file, from a state whose blocks begin in the file and have all seen
-- their brace, the loop over the braces of a text of one line, with fuel for each letter, returns; behind it the
-- stack is as high as the braces say, where a closing brace at level 0 does nothing, and all blocks have seen
-- their brace.
pub consume_braces-levels :
    (filename : Text) (lines : CleansedLines) (linenum fuel : ℕ) (line : Text) (s : NestingState)
    → SameLengths lines
    → linenum < lines.num_lines
    → StateWithin lines.num_lines s.nesting
    → all no_newline line ≡ true
    → length line < fuel
    → AllSeen s.nesting.stack
    → (s' : NestingState) × (reports : List Report) × (consume_braces fuel filename lines linenum
          line s
        ≡ some (s', reports))
      × (length s'.nesting.stack ≡ levels line (length s.nesting.stack))
      × AllSeen s'.nesting.stack
consume_braces-levels filename lines linenum fuel line s same within h one_line lt seen =
    let (s', reports, e, _, _) =
      consume_braces-Kept filename lines same linenum within fuel line s lt h in
    let q = sym (consume_braces-walk filename lines linenum fuel line s one_line lt) ∙ e in
    let (height, seen') = walk-At filename lines linenum line line s s' reports seen q in
    (s', reports, e, height, seen')
