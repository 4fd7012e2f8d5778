-- ===== src/Expression/Progress.antt =====
-- CloseExpression goes on: its position is behind the one it was given.
use falcon_link.Prelude.{
  ℕ, ◌+◌, ◌≤◌, ◌<◌, ◌≡◌, refl, subst, ◌⊎◌, inl, inr, not, ◌||◌, Option, none, some, List, [], ◌∷◌,
  arith, Text, ◌==◌, Bool-cases, length, get_elem?, drop, get_elem?-some,
}
use falcon_link.CleansedLines.{CleansedLines}
use falcon_link.Expression.{
  is_open, is_shift_or_le, find_end_of_expression_in_line, close_forward, close_at,
  close_expression,
}
use falcon_link.Expression.Bounds.{find_end-at_index, Scan-cases}

-- An answer with a position is on a later line, or behind the place on this line.
abbrev pub IsBehind : ℕ → ℕ → Text × ℕ × Option ℕ → Type 0
IsBehind linenum pos (line, n, none) = Unit {0}
IsBehind linenum pos (line, n, some p) = (linenum < n) ⊎ ((linenum ≡ n) × (pos < p))

close_forward-IsBehind :
    (total pos : ℕ) (rest : List Text) (line : Text) (linenum begin : ℕ) (st : List ℕ)
    → begin ≤ linenum
    → IsBehind begin pos (close_forward total rest line linenum st)
unfolding close_forward
close_forward-IsBehind total pos [] line linenum begin st le = tt
close_forward-IsBehind total pos (next ∷ rest) line linenum begin [] le = tt
close_forward-IsBehind total pos (next ∷ rest) line linenum begin (s ∷ st) le =
    elim (Scan-cases (find_end_of_expression_in_line next 0 (s ∷ st))) [
      | inl (p, e) ↦ rw (e, close_forward) (inl (omega arith))
      | inr (inl e) ↦ rw (e, close_forward) tt
      | inr (inr (more, e)) ↦
          rw (e, close_forward)
            (close_forward-IsBehind total pos rest next (linenum + 1) begin more (omega arith))
    ]

close_at-IsBehind :
    (lines : CleansedLines) (linenum pos : ℕ) (line : Text) (c : ℕ)
    → pos ≤ length line
    → IsBehind linenum pos (close_at lines linenum pos line c)
unfolding close_at
close_at-IsBehind lines linenum pos line c le =
    elim (Bool-cases (not (is_open c || c == b'<') || is_shift_or_le (drop pos line))) [
      | inl off ↦ rw (off, close_at) tt
      | inr on ↦ elim (Scan-cases (find_end_of_expression_in_line line pos [])) [
        | inl (p, e) ↦ rw (on, e, close_at) (inr (refl, (find_end-at_index line pos p [] e le).0))
        | inr (inl e) ↦ rw (on, e, close_at) tt
        | inr (inr (more, e)) ↦
            rw (on, e, close_at)
              (close_forward-IsBehind lines.num_lines pos (drop (linenum + 1) lines.elided) line
                linenum linenum more (omega arith))
      ]
    ]

pub close_expression-IsBehind :
    (lines : CleansedLines) (linenum pos : ℕ) (line : Text) {r : Text × ℕ × Option ℕ}
    → get_elem? lines.elided linenum ≡ some line
    → pos < length line
    → close_expression lines linenum pos ≡ some r
    → IsBehind linenum pos r
unfolding close_expression
close_expression-IsBehind lines linenum pos line {r} here inside e =
    let (c, at) = get_elem?-some line pos inside in
    let q : some (close_at lines linenum pos line c) ≡ some r =
      rw (here, at, close_expression) at e in
    let same : close_at lines linenum pos line c ≡ r = cc in
    subst (IsBehind linenum pos) same (close_at-IsBehind lines linenum pos line c (omega arith))
