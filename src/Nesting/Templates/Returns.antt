-- ===== src/Nesting/Templates/Returns.antt =====
-- InTemplateArgumentList returns.
use falcon_link.Prelude.{
  ℕ, zero, suc, ◌+◌, ◌-◌, ◌≤◌, ◌<◌, min, ◌≡◌, refl, ap, ◌⊎◌, inl, inr, Bool, true, false, Option,
  none, some, List, [], ◌∷◌, arith, Text, leb, ◌==◌, ==_iff, Bool-cases, Option-cases, none-ne-some,
  length, get_elem?, get_or, drop, length-drop, get_elem?-some,
}
use falcon_link.Regex.{match_start}
use falcon_link.Regex.Least.{least, hit_bounds}
use falcon_link.RawStrings.{group_text}
use falcon_link.CleansedLines.{CleansedLines}
use falcon_link.CleansedLines.Copies.{SameLengths}
use falcon_link.Expression.{close_expression}
use falcon_link.Expression.Bounds.{close_expression-PointsInto, PointsInto}
use falcon_link.Expression.Progress.{close_expression-IsBehind, IsBehind}
use falcon_link.Nesting.Templates.{
  suspect, is_among, Round, answer, go_on, other_token, template_round, template_loop, rounds,
  in_template_argument_list,
}

drop-nil : (k : ℕ) → drop k (let xs : List Text = [] in xs) ≡ []
drop-nil zero = refl
drop-nil (suc k) = refl

rounds-positive : (lines : List Text) → 0 < rounds lines
unfolding rounds
rounds-positive [] = omega arith
rounds-positive (line ∷ lines) = omega arith

rounds-drop :
    (lines : List Text) (n : ℕ) (line : Text)
    → get_elem? lines n ≡ some line
    → rounds (drop n lines) ≡ length line + 1 + rounds (drop (n + 1) lines)
unfolding rounds
rounds-drop [] n line h = absurd (none-ne-some h)
rounds-drop (l ∷ lines) zero line h = let e : l ≡ line = cc in omega (arith, ap (length {0}) e)
rounds-drop (l ∷ lines) (suc n) line h =
    let e : suc n + 1 ≡ suc (n + 1) = omega arith in rw e (rounds-drop lines n line h)

-- Later lines take fewer rounds.
rounds-later : (lines : List Text) (n k : ℕ) → n ≤ k → rounds (drop k lines) ≤ rounds (drop n lines)
unfolding rounds
rounds-later [] n k le = rw (drop-nil n, drop-nil k) (omega arith)
rounds-later (l ∷ lines) zero zero le = omega arith
rounds-later (l ∷ lines) zero (suc k) le = omega (arith, rounds-later lines 0 k (omega arith))
rounds-later (l ∷ lines) (suc n) zero le = absurd (omega arith)
rounds-later (l ∷ lines) (suc n) (suc k) le = rounds-later lines n k (omega arith)

suspect-least : least suspect ≡ 1
unfolding least suspect
suspect-least = refl

-- A round goes on behind the place where it was.
abbrev Later : ℕ → ℕ → Text → Round → Type 0
Later linenum pos line (answer b) = Unit {0}
Later linenum pos line (go_on n p) = (linenum < n) ⊎ ((linenum ≡ n) × (pos < p) × (p ≤ length line))

module _ (lines : CleansedLines) (same : SameLengths lines) (linenum : ℕ) (line : Text)
    (here : get_elem? lines.elided linenum ≡ some line) where
  closing-Later :
      (pos behind : ℕ)
      → pos < behind
      → behind ≤ length line
      → (r : Round) × (other_token lines linenum line b'<' behind ≡ some r)
        × Later linenum pos line r
  unfolding other_token
  closing-Later pos behind lt le =
      let ((found_line, n, p), e, into) =
        close_expression-PointsInto lines linenum (behind - 1) line same here (omega arith) in
      let ahead = close_expression-IsBehind lines linenum (behind - 1) line here (omega arith) e in
      of_position found_line n p e into ahead
    where
      of_position :
          (found_line : Text) (n : ℕ) (p : Option ℕ)
          → close_expression lines linenum (behind - 1) ≡ some (found_line, n, p)
          → PointsInto lines linenum (found_line, n, p)
          → IsBehind linenum (behind - 1) (found_line, n, p)
          → (r : Round) × (other_token lines linenum line b'<' behind ≡ some r)
            × Later linenum pos line r
      of_position found_line n none e into ahead = (answer false, rw (e, other_token), tt)
      of_position found_line n (some p) e into (inl later) =
          (go_on n p, rw (e, other_token), inl later)
      of_position found_line n (some p) e (_, _, text, _, inside) (inr (q, after)) =
          let t : line ≡ found_line = cc in
          (go_on n p, rw (e, other_token), inr (q, omega arith, omega (arith, ap (length {0}) t)))

  other_token-Later :
      (pos token behind : ℕ)
      → pos < behind
      → behind ≤ length line
      → (r : Round) × (other_token lines linenum line token behind ≡ some r)
        × Later linenum pos line r
  unfolding other_token
  other_token-Later pos token behind lt le = elim (Bool-cases (token == b'<')) [
    | inl e ↦
        let q : token ≡ b'<' = (==_iff token b'<').0 e in rw q (closing-Later pos behind lt le)
    | inr e ↦ elim (Bool-cases (leb (length line) (behind + 1))) [
      | inl out ↦ (go_on (linenum + 1) 0, rw (e, out, other_token), inl (omega arith))
      | inr in_line ↦ (
        go_on linenum (behind + 1),
        rw (e, in_line, other_token),
        inr (refl, omega arith, ground arith),
      )
    ]
  ]

  template_round-Later :
      (pos : ℕ)
      → (r : Round) × (template_round lines linenum pos line ≡ some r) × Later linenum pos line r
  unfolding template_round
  template_round-Later pos = elim (Option-cases (match_start suspect (drop pos line))) [
    | inl e ↦ (go_on (linenum + 1) 0, rw (e, template_round), inl (omega arith))
    | inr (m, e) ↦
        let (lo, hi) = hit_bounds suspect (drop pos line) m e in
        let token = get_or (group_text m 1) 0 0 in
        elim (Bool-cases (is_among "{};" token)) [
          | inl t ↦ (answer false, rw (e, template_round) (rw t), tt)
          | inr f ↦ elim (Bool-cases (is_among ">=[]." token)) [
            | inl t ↦ (answer true, rw (e, template_round) (rw (f, t)), tt)
            | inr g ↦
                let (r, q, later) =
                  other_token-Later pos token (pos + length m.hit)
                    (omega (arith, lo, suspect-least))
                    (omega (arith, lo, hi, suspect-least, length-drop {0} pos line)) in
                (r, rw (e, template_round) (rw (f, g) q), later)
          ]
        ]
  ]

module _ (lines : CleansedLines) (same : SameLengths lines) where
  -- The fuel is enough for the lines from this place on.
  Enough : ℕ → ℕ → ℕ → Type 0
  Enough fuel linenum pos =
      (line : Text)
      → get_elem? lines.elided linenum ≡ some line
      → rounds (drop linenum lines.elided) ≤ fuel + min pos (length line)

  Enough-rounds : (n p : ℕ) → Enough (rounds (drop n lines.elided)) n p
  unfolding Enough
  Enough-rounds n p line h = omega arith

  Enough-Later :
      (fuel linenum pos : ℕ) (line : Text) (n p : ℕ)
      → get_elem? lines.elided linenum ≡ some line
      → Enough (suc fuel) linenum pos
      → Later linenum pos line (go_on n p)
      → (0 < fuel) × Enough fuel n p
  unfolding Enough
  Enough-Later fuel linenum pos line n p here h (inl later) =
      let q = rounds-drop lines.elided linenum line here in
      let some_left = rounds-positive (drop (linenum + 1) lines.elided) in
      let le = h line here in
      (
        omega arith,
        λ next _. omega (arith, rounds-later lines.elided (linenum + 1) n (omega arith)),
      )
  Enough-Later fuel linenum pos line n p here h (inr (e, lt, le)) =
      let q = rounds-drop lines.elided linenum line here in
      let some_left = rounds-positive (drop (linenum + 1) lines.elided) in
      let enough = h line here in
      (
        omega arith,
        λ next at_n.
            let t : line ≡ next = cc in
            let d = ap (λ (k : ℕ). rounds (drop k lines.elided)) e in
            omega (arith, ap (length {0}) t),
      )

  template_loop-Returns :
      (fuel linenum pos : ℕ)
      → 0 < fuel
      → Enough fuel linenum pos
      → (b : Bool) × (template_loop fuel lines linenum pos ≡ some b)
  unfolding template_loop
  template_loop-Returns zero linenum pos lt h = absurd (omega arith)
  template_loop-Returns (suc fuel) linenum pos lt h =
      elim (Bool-cases (leb lines.num_lines linenum)) [
        | inl out ↦ (false, rw (out, template_loop))
        | inr within ↦
            let (line, here) = get_elem?-some lines.elided linenum (ground (arith, same.elided)) in
            let (r, e, later) = template_round-Later lines same linenum line here pos in
            of_round (template_loop-Returns fuel) within line here r e later
      ]
    where
      of_round :
          ((n p : ℕ)
            → 0 < fuel
            → Enough fuel n p
            → (b : Bool) × (template_loop fuel lines n p ≡ some b))
          → leb lines.num_lines linenum ≡ false
          → (line : Text) → get_elem? lines.elided linenum ≡ some line
          → (r : Round) → template_round lines linenum pos line ≡ some r
          → Later linenum pos line r
          → (b : Bool) × (template_loop (suc fuel) lines linenum pos ≡ some b)
      of_round ih within line here (answer b) e later = (b, rw (within, here, e, template_loop))
      of_round ih within line here (go_on n p) e later =
          let (left, enough) = Enough-Later fuel linenum pos line n p here h later in
          let (b, q) = ih n p left enough in (b, rw (within, here, e, template_loop) q)

  -- In copies of one length InTemplateArgumentList returns, with no exception, whatever the place.
  pub in_template_argument_list-Returns :
      (linenum pos : ℕ) → (b : Bool) × (in_template_argument_list lines linenum pos ≡ some b)
  unfolding in_template_argument_list
  in_template_argument_list-Returns linenum pos =
      template_loop-Returns (rounds (drop linenum lines.elided)) linenum pos
        (rounds-positive (drop linenum lines.elided)) (Enough-rounds linenum pos)
