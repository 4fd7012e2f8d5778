-- ===== src/Nesting/Braces/Walk.antt =====
-- The loop of Update over the braces of a line, against a walk over its letters.
use mathlib.Core.Path.{fun_ext}
use falcon_link.Prelude.{
  ℕ, zero, suc, ◌<◌, ◌≡◌, refl, sym, ap, ap₂, subst, ◌∙◌, inl, inr, true, false, Option, some, List,
  [], ◌∷◌, ◌++◌, append-nil, arith, all, Text, Bool-cases, Option-cases, and_true, length, get_or,
  length-append,
}
use falcon_link.Regex.{match_start}
use falcon_link.CleansedLines.{CleansedLines}
use falcon_link.CleansedLines.Quotes.{no_newline}
use falcon_link.Report.{Report}
use falcon_link.Nesting.{NestingState}
use falcon_link.Nesting.Braces.{brace_pattern, after_step, brace_step, consume_braces}
use falcon_link.Nesting.Braces.First.{is_brace, other_letter, first_brace, no_brace, all-append}

-- The letters one by one; `from` is the text behind the last brace.
unfoldable pub walk :
    Text → CleansedLines → ℕ → Text → Text → NestingState → Option (NestingState × List Report)
walk filename lines linenum from [] s = some (s, [])
walk filename lines linenum from (c ∷ t) s = elim (is_brace c) [
  | true ↦ after_step (brace_step filename lines linenum c from s) (walk filename lines linenum t t)
  | false ↦ walk filename lines linenum from t s
]

module _ (filename : Text) (lines : CleansedLines) (linenum : ℕ) where
  walk-clear :
      (from a rest : Text) (s : NestingState)
      → all other_letter a ≡ true
      → walk filename lines linenum from (a ++ rest) s ≡ walk filename lines linenum from rest s
  unfolding walk all
  walk-clear from [] rest s h = refl
  walk-clear from (c ∷ a) rest s h = elim (Bool-cases (is_brace c)) [
    | inl t ↦ ground arith
    | inr f ↦
        rw (f, walk) (walk-clear from a rest s (and_true (other_letter c) (all other_letter a) h).1)
  ]

  walk-none :
      (line : Text) (s : NestingState)
      → all other_letter line ≡ true
      → walk filename lines linenum line line s ≡ some (s, [])
  unfolding walk
  walk-none line s h =
      ap (λ (t : Text). walk filename lines linenum line t s) (sym (append-nil line))
      ∙ walk-clear line line [] s h

  walk-parts :
      (line a : Text) (token : ℕ) (rest : Text) (s : NestingState)
      → line ≡ a ++ token ∷ rest
      → all other_letter a ≡ true
      → is_brace token ≡ true
      → walk filename lines linenum line line s
        ≡ after_step
            (brace_step filename lines linenum token line s)
            (walk filename lines linenum rest rest)
  unfolding walk
  walk-parts line a token rest s e ha ht =
      ap (λ (t : Text). walk filename lines linenum line t s) e
      ∙ walk-clear line a (token ∷ rest) s ha
      ∙ (rw (ht, walk))

  -- On a text of one line the loop does with the braces what the walk does with the letters.
  pub consume_braces-walk :
      (fuel : ℕ) (line : Text) (s : NestingState)
      → all no_newline line ≡ true
      → length line < fuel
      → consume_braces fuel filename lines linenum line s ≡ walk filename lines linenum line line s
  unfolding consume_braces all
  consume_braces-walk zero line s one_line lt = absurd (omega arith)
  consume_braces-walk (suc fuel) line s one_line lt =
      elim (Option-cases (match_start brace_pattern line)) [
        | inl e ↦ rw (e, consume_braces) (sym (walk-none line s (no_brace line one_line e)))
        | inr (m, e) ↦
            let f = first_brace line m one_line e in
            let tail =
              all-append no_newline f.prefix (f.token ∷ f.rest)
                (subst (λ (t : Text). all no_newline t ≡ true) f.parts one_line) in
            let one_line' = and_true (no_newline f.token) (all no_newline f.rest) tail.1 in
            let shorter = ap (length {0}) f.parts in
            let same = λ (s' : NestingState).
              consume_braces-walk fuel f.rest s' one_line'.1
                (omega (arith, length-append {0} f.prefix (f.token ∷ f.rest))) in
            rw (e, consume_braces)
              (ap₂
                  (λ (u v : Text).
                    after_step (brace_step filename lines linenum (get_or u 0 0) line s)
                      (consume_braces fuel filename lines linenum v))
                  f.first f.second
                ∙ ap (after_step (brace_step filename lines linenum f.token line s)) (fun_ext same)
                ∙ sym (walk-parts line f.prefix f.token f.rest s f.parts f.clear f.brace))
      ]
