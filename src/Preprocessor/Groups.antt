-- ===== src/Preprocessor/Groups.antt =====
-- Groups of #if, #else, #elif and #endif: the first branch alone has an effect on the nesting stack.
use falcon_link.Prelude.{
  ◌≡◌, refl, ap, ◌∙◌, true, false, List, [], ◌∷◌, ◌++◌, arith, Text, if◌then◌else◌,
}
use falcon_link.Preprocessor.{
  PreprocessorInfo, Nesting, opening, alternative, closing, no_directive, directive, at_if, at_else,
  at_endif, update_preprocessor,
}

-- A line, and what the rest of Update makes of the nesting stack at that line.
abbrev pub Line {ℓ} : Type ℓ → Type ℓ
Line Block = Text × (List Block → List Block)

module _ {ℓ} {Block : Type ℓ} where
  abbrev pub read_line : Line Block → Nesting Block → Nesting Block
  read_line (line, f) s = let t = update_preprocessor line s in record t { stack = f t.stack }

  abbrev pub read_lines : List (Line Block) → Nesting Block → Nesting Block
  read_lines [] s = s
  read_lines (l ∷ ls) s = read_lines ls (read_line l s)

  -- Lines in which the directives are nested, with the effect of the lines outside of groups and in the
  -- first branches; and the other branches of a group.
  mutual
    pub data Nested : List (Line Block) → (List Block → List Block) → Type ℓ where
      nothing : Nested [] (λ s. s)
      line :
          (t : Text) (f : List Block → List Block) {ls : List (Line Block)}
          {g : List Block → List Block}
          → directive t ≡ no_directive
          → Nested ls g
          → Nested ((t, f) ∷ ls) (λ s. g (f s))
      conditional :
          (t : Text) (f : List Block → List Block) {ls : List (Line Block)}
          {g : List Block → List Block} {bs : List (Line Block)} (u : Text)
          (h : List Block → List Block) {rest : List (Line Block)} {k : List Block → List Block}
          → directive t ≡ opening
          → Nested ls g
          → Branches bs
          → directive u ≡ closing
          → Nested rest k
          → Nested ((t, f) ∷ (ls ++ (bs ++ ((u, h) ∷ rest)))) (λ s. k (h (g (f s))))

    pub data Branches : List (Line Block) → Type ℓ where
      no_branch : Branches []
      branch :
          (t : Text) (f : List Block → List Block) {ls : List (Line Block)}
          {g : List Block → List Block} {bs : List (Line Block)}
          → directive t ≡ alternative
          → Nested ls g
          → Branches bs
          → Branches ((t, f) ∷ (ls ++ bs))

  read_lines-append :
      (ls ms : List (Line Block)) (s : Nesting Block)
      → read_lines (ls ++ ms) s ≡ read_lines ms (read_lines ls s)
  read_lines-append [] ms s = refl
  read_lines-append (l ∷ ls) ms s = read_lines-append ls ms (read_line l s)

  abbrev pub nesting : List Block → List (PreprocessorInfo Block) → Nesting Block
  nesting stack pp = record { stack = stack; pp_stack = pp }

  -- The stack after #endif.
  abbrev after_endif : PreprocessorInfo Block → List Block → List Block
  after_endif i stack = if i.seen_else then i.stack_before_else else stack

  -- After #else or #elif.
  abbrev alternated : PreprocessorInfo Block → List Block → PreprocessorInfo Block
  alternated i stack =
      if i.seen_else then i else record i { seen_else = true; stack_before_else = stack }

  after_endif-alternated :
      (i : PreprocessorInfo Block) (s t : List Block)
      → after_endif (alternated i s) t ≡ after_endif i s
  after_endif-alternated i s t = ground arith

  read-no_directive :
      (t : Text) (f : List Block → List Block) (s : Nesting Block)
      → directive t ≡ no_directive
      → read_line (t, f) s ≡ nesting (f s.stack) s.pp_stack
  unfolding update_preprocessor
  read-no_directive t f s e = rw (e, update_preprocessor)

  read-opening :
      (t : Text) (f : List Block → List Block) (s : Nesting Block)
      → directive t ≡ opening
      → read_line (t, f) s
        ≡ nesting (f s.stack) (
            record { stack_before_if = s.stack; stack_before_else = []; seen_else = false }
            ∷ s.pp_stack)
  unfolding update_preprocessor at_if
  read-opening t f s e = rw (e, update_preprocessor)

  read-alternative :
      (t : Text) (f : List Block → List Block) (stack : List Block) (i : PreprocessorInfo Block)
      (pp : List (PreprocessorInfo Block))
      → directive t ≡ alternative
      → read_line (t, f) (nesting stack (i ∷ pp))
        ≡ nesting (f i.stack_before_if) (alternated i stack ∷ pp)
  unfolding update_preprocessor at_else
  read-alternative t f stack i pp e = rw (e, update_preprocessor)

  read-closing :
      (t : Text) (f : List Block → List Block) (stack : List Block) (i : PreprocessorInfo Block)
      (pp : List (PreprocessorInfo Block))
      → directive t ≡ closing
      → read_line (t, f) (nesting stack (i ∷ pp)) ≡ nesting (f (after_endif i stack)) pp
  unfolding update_preprocessor at_endif
  read-closing t f stack i pp e = rw (e, update_preprocessor)

  -- A new entry of the stack.
  abbrev opened : List Block → PreprocessorInfo Block
  opened stack = record { stack_before_if = stack; stack_before_else = []; seen_else = false }

  mutual
    Nested-read_lines :
        {ls : List (Line Block)} {f : List Block → List Block} (n : Nested ls f)
        (stack : List Block) (pp : List (PreprocessorInfo Block))
        → read_lines ls (nesting stack pp) ≡ nesting (f stack) pp
    Nested-read_lines nothing stack pp = refl
    Nested-read_lines (line t f {ls} e n) stack pp =
        ap (read_lines ls) (read-no_directive t f (nesting stack pp) e)
        ∙ Nested-read_lines n (f stack) pp
    Nested-read_lines (conditional t f {ls} {g} {bs} u h {rest} {k} o n b c r) stack pp =
        let i = opened stack in
        let (stack', j, e, q) = Branches-read_lines b (g (f stack)) i pp in
        ap (read_lines (ls ++ (bs ++ ((u, h) ∷ rest)))) (read-opening t f (nesting stack pp) o)
        ∙ read_lines-append ls (bs ++ ((u, h) ∷ rest)) (nesting (f stack) (i ∷ pp))
        ∙ ap (read_lines (bs ++ ((u, h) ∷ rest))) (Nested-read_lines n (f stack) (i ∷ pp))
        ∙ read_lines-append bs ((u, h) ∷ rest) (nesting (g (f stack)) (i ∷ pp))
        ∙ ap (read_lines ((u, h) ∷ rest)) e
        ∙ ap (read_lines rest) (read-closing u h stack' j pp c)
        ∙ ap (λ (x : List Block). read_lines rest (nesting (h x) pp)) q
        ∙ Nested-read_lines r (h (g (f stack))) pp

    Branches-read_lines :
        {bs : List (Line Block)} (b : Branches bs) (stack : List Block) (i : PreprocessorInfo Block)
        (pp : List (PreprocessorInfo Block))
        → (stack' : List Block) × (j : PreprocessorInfo Block) × (read_lines bs
              (nesting stack (i ∷ pp))
            ≡ nesting stack' (j ∷ pp))
          × (after_endif j stack' ≡ after_endif i stack)
    Branches-read_lines no_branch stack i pp = (stack, i, refl, refl)
    Branches-read_lines (branch t f {ls} {g} {bs} a n b) stack i pp =
        let i' = alternated i stack in
        let inside = g (f i.stack_before_if) in
        let (stack', j, e, q) = Branches-read_lines b inside i' pp in
        (
          stack',
          j,
          ap (read_lines (ls ++ bs)) (read-alternative t f stack i pp a)
              ∙ read_lines-append ls bs (nesting (f i.stack_before_if) (i' ∷ pp))
              ∙ ap (read_lines bs) (Nested-read_lines n (f i.stack_before_if) (i' ∷ pp))
              ∙ e,
          q ∙ after_endif-alternated i stack inside,
        )

  -- Over lines in which #if, #else, #elif and #endif are nested, the preprocessor stack ends as it
  -- began, and the nesting stack is what the lines outside of groups, the #if and #endif lines, and
  -- the lines of the first branches make of it: no other branch has an effect.
  pub update_preprocessor-Nested :
      {ls : List (Line Block)} {f : List Block → List Block} (n : Nested ls f) (stack : List Block)
      (pp : List (PreprocessorInfo Block))
      → read_lines ls (nesting stack pp) ≡ nesting (f stack) pp
  update_preprocessor-Nested n stack pp = Nested-read_lines n stack pp
