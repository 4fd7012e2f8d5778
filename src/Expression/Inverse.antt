-- ===== src/Expression/Inverse.antt =====
-- CloseExpression and ReverseCloseExpression find each other's parenthesis.
use falcon_link.Prelude.{
  ℕ, ◌+◌, ◌≡◌, sym, ap, ◌∙◌, true, false, some, [], ◌∷◌, ◌++◌, reverse, append_assoc,
  reverse-append, arith, Text, ◌==◌, length, get_elem?, take, drop, length-append, take-length,
  drop-length, get_elem?-length, length-reverse,
}
use falcon_link.CleansedLines.{CleansedLines}
use falcon_link.Expression.{
  at_index, is_open, is_close, is_pair, find_end_of_expression_in_line, close_at, close_expression,
  is_shift_or_le, find_start_of_expression_in_line, reverse_close_at, reverse_close_expression,
}
use falcon_link.Expression.Balanced.{Balanced, scan_end_pair, scan_start_pair, reverse_nest}

no_shift : (o : ℕ) (t : Text) → is_open o ≡ true → is_shift_or_le (o ∷ t) ≡ false
unfolding is_shift_or_le
no_shift o t h = let e : (o == b'<') ≡ false = ground arith in rw (e, is_shift_or_le)

-- A line with a pair of parentheses around balanced text.
abbrev pub enclosed : Text → ℕ → Text → ℕ → Text → Text
enclosed pre o t c post = pre ++ (o ∷ (t ++ (c ∷ post)))

module _ (pre t post : Text) (o c : ℕ) (p : is_pair o c ≡ true) (bal : Balanced t) where
  find_end_pair :
      find_end_of_expression_in_line (enclosed pre o t c post) (length pre) []
      ≡ at_index (length pre + length t + 2)
  unfolding find_end_of_expression_in_line
  find_end_pair =
      rw (drop-length pre (o ∷ (t ++ (c ∷ post))), find_end_of_expression_in_line)
        (scan_end_pair o c t (reverse (take (length pre) (enclosed pre o t c post))) post
          (length pre) p bal)

  -- The letters up to the second parenthesis.
  up_to_close :
      take (length pre + length t + 2) (enclosed pre o t c post) ≡ pre ++ (o ∷ (t ++ (c ∷ [])))
  up_to_close =
      let whole = pre ++ (o ∷ (t ++ (c ∷ []))) in
      let split : enclosed pre o t c post ≡ whole ++ post = sym (
        append_assoc pre (o ∷ (t ++ (c ∷ []))) post
        ∙ ap (λ (u : Text). pre ++ (o ∷ u)) (append_assoc t (c ∷ []) post)) in
      let size : length pre + length t + 2 ≡ length whole =
        omega (arith, length-append {0} pre (o ∷ (t ++ (c ∷ []))), length-append {0} t (c ∷ [])) in
      rw (split, size) (take-length whole post)

  backwards : reverse (pre ++ (o ∷ (t ++ (c ∷ [])))) ≡ c ∷ (reverse t ++ (o ∷ reverse pre))
  backwards = reverse-append pre (o ∷ (t ++ (c ∷ []))) ∙ reverse_nest o c t [] (reverse pre)

  find_start_pair :
      find_start_of_expression_in_line (enclosed pre o t c post) (length pre + length t + 2) []
      ≡ at_index (length pre)
  unfolding find_start_of_expression_in_line
  find_start_pair =
      rw (up_to_close, backwards, find_start_of_expression_in_line)
        (scan_start_pair o c t (reverse pre)
            (drop (length pre + length t + 2) (enclosed pre o t c post)) p bal
          ∙ ap at_index (length-reverse pre))

  at_close : get_elem? (enclosed pre o t c post) (length pre + length t + 1) ≡ some c
  at_close =
      let split : enclosed pre o t c post ≡ (pre ++ (o ∷ t)) ++ (c ∷ post) =
        sym (append_assoc pre (o ∷ t) (c ∷ post)) in
      let size : length pre + length t + 1 ≡ length (pre ++ (o ∷ t)) =
        omega (arith, length-append {0} pre (o ∷ t)) in
      rw (split, size) (get_elem?-length (pre ++ (o ∷ t)) post c)

-- On a line where a pair of parentheses, brackets or braces encloses balanced text without angle
-- brackets and semicolons, CloseExpression goes from the first to the place behind the second, and
-- ReverseCloseExpression goes from the second back to the first, on the same line.
pub close_expression-reverse_close_expression :
    (lines : CleansedLines) (linenum : ℕ) (pre t post : Text) (o c : ℕ)
    → is_pair o c ≡ true
    → Balanced t
    → get_elem? lines.elided linenum ≡ some (enclosed pre o t c post)
    → (close_expression lines linenum (length pre)
        ≡ some (enclosed pre o t c post, linenum, some (length pre + length t + 2)))
      × (reverse_close_expression lines linenum (length pre + length t + 1)
          ≡ some (enclosed pre o t c post, linenum, some (length pre)))
unfolding close_expression close_at reverse_close_expression reverse_close_at
close_expression-reverse_close_expression lines linenum pre t post o c p bal here =
    let opens : is_open o ≡ true = ground arith in
    let closes : is_close c ≡ true = ground arith in
    let q : length pre + length t + 1 + 1 ≡ length pre + length t + 2 = omega arith in
    (
      ground (
        arith,
        here,
        get_elem?-length pre (t ++ (c ∷ post)) o,
        ap is_shift_or_le (drop-length pre (o ∷ (t ++ (c ∷ post)))),
        no_shift o (t ++ (c ∷ post)) opens,
        find_end_pair pre t post o c p bal,
      ),
      ground (arith, here, at_close pre t post o c p bal, q, find_start_pair pre t post o c p bal),
    )
