-- ===== src/Expression/Balanced.antt =====
-- Balanced text: what the two scans do on parentheses that are closed in order, with letters between
-- them that are no parenthesis, no `<` or `>`, and no `;`.
use falcon_link.Prelude.{
  ℕ, suc, ◌+◌, ◌≡◌, refl, ap, ◌∙◌, Bool, true, not, ◌&&◌, List, [], ◌∷◌, ◌++◌, reverse,
  append_assoc, reverse-append, arith, Text, ◌==◌, length, length-append,
}
use falcon_link.Expression.{
  Scan, at_index, is_open, is_close, is_pair, end_step, scan_end, pop_all, popped, close_bracket,
  start_step, scan_start, open_bracket, go, stop,
}

-- A letter that neither scan looks at.
abbrev pub is_neutral : ℕ → Bool
is_neutral c =
    not (is_open c)
    && (not (is_close c) && (not (c == b'<') && (not (c == b'>') && not (c == b';'))))

pub data Balanced : Text → Type 0 where
  nil : Balanced []
  letter : {c : ℕ} {t : Text} → is_neutral c ≡ true → Balanced t → Balanced (c ∷ t)
  nest :
      (o c : ℕ) (t u : Text)
      → is_pair o c ≡ true
      → Balanced t
      → Balanced u
      → Balanced (o ∷ (t ++ (c ∷ u)))

end_step-neutral :
    (b : Text) (c i : ℕ) (st : List ℕ) → is_neutral c ≡ true → end_step b c i st ≡ go st
unfolding end_step
end_step-neutral b c i st h = ground arith

pair_opens : (o c : ℕ) → is_pair o c ≡ true → is_open o ≡ true
pair_opens o c h = ground arith

pair_closes : (o c : ℕ) → is_pair o c ≡ true → is_close c ≡ true
pair_closes o c h = ground arith

end_step-open :
    (b : Text) (o i : ℕ) (st : List ℕ) → is_open o ≡ true → end_step b o i st ≡ go (o ∷ st)
unfolding end_step
end_step-open b o i st h = rw (h, end_step)

end_step-close :
    (b : Text) (o c i : ℕ) (st : List ℕ)
    → is_pair o c ≡ true
    → end_step b c i (o ∷ st) ≡ popped (at_index (i + 1)) st
unfolding end_step pop_all close_bracket
end_step-close b o c i st h = ground arith

popped_more : (i s : ℕ) (st : List ℕ) → popped (at_index i) (s ∷ st) ≡ go (s ∷ st)
unfolding popped
popped_more i s st = refl

popped_stop : (s : Scan) → popped s [] ≡ stop s
unfolding popped
popped_stop s = refl

scan_end-go :
    (b : Text) (c : ℕ) (r : Text) (i : ℕ) (st next : List ℕ)
    → end_step b c i st ≡ go next
    → scan_end b (c ∷ r) i st ≡ scan_end (c ∷ b) r (i + 1) next
unfolding scan_end
scan_end-go b c r i st next h = rw (h, scan_end)

scan_end-stop :
    (b : Text) (c : ℕ) (r : Text) (i : ℕ) (st : List ℕ) (s : Scan)
    → end_step b c i st ≡ stop s
    → scan_end b (c ∷ r) i st ≡ s
unfolding scan_end
scan_end-stop b c r i st s h = rw (h, scan_end)

-- Balanced text inside a parenthesis leaves the stack as it is.
pub scan_end-Balanced :
    {t : Text} (bal : Balanced t) (b r : Text) (i : ℕ) (s : ℕ) (st : List ℕ)
    → (b' : Text) × (scan_end b (t ++ r) i (s ∷ st) ≡ scan_end b' r (i + length t) (s ∷ st))
scan_end-Balanced nil b r i s st = let e : i + 0 ≡ i = omega arith in (b, rw e)
scan_end-Balanced (letter {c} {t} h bal) b r i s st =
    let (b', e) = scan_end-Balanced bal (c ∷ b) r (i + 1) s st in
    let q : i + 1 + length t ≡ i + suc (length t) = omega arith in
    (
      b',
      scan_end-go b c (t ++ r) i (s ∷ st) (s ∷ st) (end_step-neutral b c i (s ∷ st) h)
          ∙ (rw q at e),
    )
scan_end-Balanced (nest o c t u p bt bu) b r i s st =
    let (b1, e1) = scan_end-Balanced bt (o ∷ b) (c ∷ (u ++ r)) (i + 1) o (s ∷ st) in
    let (b2, e2) = scan_end-Balanced bu (c ∷ b1) r (i + 1 + length t + 1) s st in
    let first =
      scan_end-go b o (t ++ (c ∷ (u ++ r))) i (s ∷ st) (o ∷ s ∷ st)
        (end_step-open b o i (s ∷ st) (pair_opens o c p)) in
    let last = scan_end-go b1 c (u ++ r) (i + 1 + length t) (o ∷ s ∷ st) (s ∷ st) (
      end_step-close b1 o c (i + 1 + length t) (s ∷ st) p
      ∙ popped_more (i + 1 + length t + 1) s st) in
    let q : i + 1 + length t + 1 + length u ≡ i + suc (length (t ++ (c ∷ u))) =
      omega (arith, length-append {0} t (c ∷ u)) in
    (b2, rw (append_assoc t (c ∷ u) r) (first ∙ e1 ∙ last ∙ (rw q at e2)))

-- A pair of parentheses around balanced text ends the scan behind the second one.
pub scan_end_pair :
    (o c : ℕ) (t b r : Text) (i : ℕ)
    → is_pair o c ≡ true
    → Balanced t
    → scan_end b (o ∷ (t ++ (c ∷ r))) i [] ≡ at_index (i + length t + 2)
scan_end_pair o c t b r i p bal =
    let (b1, e1) = scan_end-Balanced bal (o ∷ b) (c ∷ r) (i + 1) o [] in
    let q : i + 1 + length t + 1 ≡ i + length t + 2 = omega arith in
    scan_end-go b o (t ++ (c ∷ r)) i [] (o ∷ []) (end_step-open b o i [] (pair_opens o c p))
    ∙ e1
    ∙ scan_end-stop b1 c r (i + 1 + length t) (o ∷ []) (at_index (i + 1 + length t + 1)) (
        end_step-close b1 o c (i + 1 + length t) [] p
        ∙ popped_stop (at_index (i + 1 + length t + 1)))
    ∙ ap at_index q

-- Backwards: the same text from its end.
start_step-neutral :
    (b : Text) (c : ℕ) (a : Text) (i : ℕ) (st : List ℕ)
    → is_neutral c ≡ true
    → start_step b c a i st ≡ go st
unfolding start_step
start_step-neutral b c a i st h = ground arith

start_step-close :
    (b : Text) (c : ℕ) (a : Text) (i : ℕ) (st : List ℕ)
    → is_close c ≡ true
    → start_step b c a i st ≡ go (c ∷ st)
unfolding start_step
start_step-close b c a i st h = rw (h, start_step)

start_step-open :
    (b : Text) (o c : ℕ) (a : Text) (i : ℕ) (st : List ℕ)
    → is_pair o c ≡ true
    → start_step b o a i (c ∷ st) ≡ popped (at_index i) st
unfolding start_step pop_all open_bracket
start_step-open b o c a i st h = ground arith

-- One letter of a scan that goes on, whether the line begins there or not.
scan_start-go :
    (b : Text) (c : ℕ) (a : Text) (st next : List ℕ)
    → start_step b c a (length b) st ≡ go next
    → scan_start (c ∷ b) a st ≡ scan_start b (c ∷ a) next
unfolding scan_start
scan_start-go [] c a st next h = rw (h, scan_start)
scan_start-go (d ∷ b) c a st next h =
    let q : length b + 1 ≡ suc (length b) = omega arith in rw (q, h, scan_start)

scan_start-stop :
    (b : Text) (c : ℕ) (a : Text) (st : List ℕ) (s : Scan)
    → start_step b c a (length b) st ≡ stop s
    → scan_start (c ∷ b) a st ≡ s
unfolding scan_start
scan_start-stop [] c a st s h = rw (h, scan_start)
scan_start-stop (d ∷ b) c a st s h =
    let q : length b + 1 ≡ suc (length b) = omega arith in rw (q, h, scan_start)

reverse_cons_append : (c : ℕ) (t b : Text) → reverse (c ∷ t) ++ b ≡ reverse t ++ (c ∷ b)
reverse_cons_append c t b =
    ap (λ (u : Text). u ++ b) (reverse-append (c ∷ []) t) ∙ append_assoc (reverse t) (c ∷ []) b

pub reverse_nest :
    (o c : ℕ) (t u b : Text)
    → reverse (o ∷ (t ++ (c ∷ u))) ++ b ≡ reverse u ++ (c ∷ (reverse t ++ (o ∷ b)))
reverse_nest o c t u b =
    reverse_cons_append o (t ++ (c ∷ u)) b
    ∙ ap (λ (v : Text). v ++ (o ∷ b)) (reverse-append t (c ∷ u))
    ∙ append_assoc (reverse (c ∷ u)) (reverse t) (o ∷ b)
    ∙ reverse_cons_append c u (reverse t ++ (o ∷ b))

-- Balanced text inside a parenthesis leaves the stack as it is, backwards too.
pub scan_start-Balanced :
    {t : Text} (bal : Balanced t) (b a : Text) (s : ℕ) (st : List ℕ)
    → (a' : Text) × (scan_start (reverse t ++ b) a (s ∷ st) ≡ scan_start b a' (s ∷ st))
scan_start-Balanced nil b a s st = (a, refl)
scan_start-Balanced (letter {c} {t} h bal) b a s st =
    let (a', e) = scan_start-Balanced bal (c ∷ b) a s st in
    (
      c ∷ a',
      ap (λ (u : Text). scan_start u a (s ∷ st)) (reverse_cons_append c t b)
          ∙ e
          ∙ scan_start-go b c a' (s ∷ st) (s ∷ st)
              (start_step-neutral b c a' (length b) (s ∷ st) h),
    )
scan_start-Balanced (nest o c t u p bt bu) b a s st =
    let (a1, e1) = scan_start-Balanced bu (c ∷ (reverse t ++ (o ∷ b))) a s st in
    let (a2, e2) = scan_start-Balanced bt (o ∷ b) (c ∷ a1) c (s ∷ st) in
    let first = scan_start-go (reverse t ++ (o ∷ b)) c a1 (s ∷ st) (c ∷ s ∷ st) (
      start_step-close (reverse t ++ (o ∷ b)) c a1 (length (reverse t ++ (o ∷ b))) (s ∷ st)
        (pair_closes o c p)) in
    let last =
      scan_start-go b o a2 (c ∷ s ∷ st) (s ∷ st)
        (start_step-open b o c a2 (length b) (s ∷ st) p ∙ popped_more (length b) s st) in
    (
      o ∷ a2,
      ap (λ (v : Text). scan_start v a (s ∷ st)) (reverse_nest o c t u b) ∙ e1 ∙ first ∙ e2 ∙ last,
    )

-- Backwards from the second of a pair of parentheses around balanced text the scan ends at the first.
pub scan_start_pair :
    (o c : ℕ) (t b a : Text)
    → is_pair o c ≡ true
    → Balanced t
    → scan_start (c ∷ (reverse t ++ (o ∷ b))) a [] ≡ at_index (length b)
scan_start_pair o c t b a p bal =
    let (a1, e1) = scan_start-Balanced bal (o ∷ b) (c ∷ a) c [] in
    scan_start-go (reverse t ++ (o ∷ b)) c a [] (c ∷ []) (
      start_step-close (reverse t ++ (o ∷ b)) c a (length (reverse t ++ (o ∷ b))) []
        (pair_closes o c p))
    ∙ e1
    ∙ scan_start-stop b o a1 (c ∷ []) (at_index (length b))
        (start_step-open b o c a1 (length b) [] p ∙ popped_stop (at_index (length b)))
