-- ===== src/Checks/Operators/Hidden.antt =====
-- The loop that hides the names of operator methods ends.
use falcon_link.Prelude.{
  ℕ, zero, suc, ◌+◌, ◌≤◌, ◌<◌, ◌≡◌, refl, sym, ap, ◌∙◌, inl, inr, false, some, [], ◌∷◌, ◌++◌, map,
  arith, all, codes, Text, ◌==◌, if◌then◌else◌, Option-cases, length, length-append, length-map,
}
use falcon_link.Regex.{
  Cursor, Found, word, is_word, star, group, dot, space, non_space, plus, boundary, one,
  match_start, group_of, ◌▸◌,
}
use falcon_link.Regex.Sound.{match_start-IsSound}
use falcon_link.Regex.Least.{least, Matches-least}
use falcon_link.Regex.Reads.{group-Reads, word_end}
use falcon_link.RawStrings.{group_text}
use falcon_link.Checks.Operators.{operator_call, hide_operators}

-- The letters that are not `_`.
visible : Text → ℕ
visible [] = 0
visible (c ∷ t) = if c == b'_' then visible t else suc (visible t)

visible-append : (s t : Text) → visible (s ++ t) ≡ visible s + visible t
unfolding visible
visible-append [] t = omega arith
visible-append (c ∷ s) t = ground (arith, visible-append s t)

visible-hidden : (t : Text) → visible (map (λ c. b'_') t) ≡ 0
unfolding visible
visible-hidden [] = refl
visible-hidden (c ∷ t) = visible-hidden t

hidden-length : (t : Text) → length {A = ℕ} (map (λ c. b'_') t) ≡ length t
hidden-length t = length-map {B = ℕ} (λ c. b'_') t

visible-length : (t : Text) → visible t ≤ length t
unfolding visible
visible-length [] = omega arith
visible-length (c ∷ t) = ground (arith, visible-length t)

-- The parts of a line that the pattern matches; the name begins with a letter that is not `_`.
abbrev Split : Text → Found → Type 0
Split line m =
    (x : ℕ) × (name tail : Text) × (x == b'_' ≡ false)
    × (group_text m 2 ≡ x ∷ name)
    × (line ≡ group_text m 1 ++ (group_text m 2 ++ (group_text m 3 ++ tail)))

name-first :
    (t : Text) (c d : Cursor) (x : ℕ) (r : Text)
    → c.rest ≡ x ∷ r
    → c.rest ≡ t ++ d.rest
    → length d.rest < length c.rest
    → (name : Text) × (t ≡ x ∷ name)
name-first [] c d x r e f lt = absurd (omega (arith, ap (length {0}) f))
name-first (y ∷ name) c d x r e f lt =
    let h : x ∷ r ≡ y ∷ (name ++ d.rest) = sym e ∙ f in
    let q : x ≡ y = cc in (name, ap (λ (z : ℕ). z ∷ name) (sym q))

groups-text :
    (m : Found) (t1 t2 t3 : Text)
    → m.groups ≡ (3, t3) ∷ (2, t2) ∷ (1, t1) ∷ []
    → (group_text m 1 ≡ t1) × (group_text m 2 ≡ t2) × (group_text m 3 ≡ t3)
unfolding group_of
groups-text m t1 t2 t3 q = (rw (q, group_of) refl, rw (q, group_of) refl, rw (q, group_of) refl)

joined :
    {g1 g2 g3 t1 t2 t3 : Text}
    → g1 ≡ t1
    → g2 ≡ t2
    → g3 ≡ t3
    → (rest : Text) → g1 ++ (g2 ++ (g3 ++ rest)) ≡ t1 ++ (t2 ++ (t3 ++ rest))
joined k1 k2 k3 rest = rw (k1, k2, k3) refl

operator_call-Split :
    (line : Text) (m : Found) → match_start operator_call line ≡ some m → Split line m
unfolding operator_call word codes all is_word least
operator_call-Split line m h =
    let (d, whole, same) = match_start-IsSound operator_call line m h in
    let (c1, (_, e0), (c2, g1, (c3, g2, (c4, g3, fin)))) = whole in
    let (t1, q1, r1) =
      group-Reads 1 (star dot ▸ boundary ▸ word "operator" ▸ boundary) c1 c2 refl g1 in
    let (t2, q2, r2) = group-Reads 2 (plus non_space) c2 c3 refl g2 in
    let (t3, q3, r3) = group-Reads 3 (star space ▸ one b'(' ▸ star dot) c3 c4 refl g3 in
    let (m1, (ma, _, (mb, _, (mc, w, b))), cap1) = g1 in
    let (m2, (n1, (x, r, ex, _, _), _), _) = g2 in
    let gs : m.groups ≡ (3, t3) ∷ (2, t2) ∷ (1, t1) ∷ [] =
      ap (λ (f : Found). f.groups) (sym same)
      ∙ ap (λ (u : Cursor). u.groups) (sym fin.1)
      ∙ q3
      ∙ ap (◌∷◌ (3, t3))
          (q2 ∙ ap (◌∷◌ (2, t2)) (q1 ∙ ap (λ (u : Cursor). (1, t1) ∷ u.groups) (sym e0))) in
    let (k1, k2, k3) = groups-text m t1 t2 t3 gs in
    let below = Matches-least (group 2 (plus non_space)) c2 c3 g2 in
    let first =
      word_end b'o' (codes "perator") mb mc m1 x r refl w b
        (ap (λ (u : Cursor). u.rest) cap1 ∙ ex) in
    let (name, nm) = name-first t2 c2 c3 x r ex r2 (omega arith) in
    (
      x,
      name,
      c4.rest,
      first,
      k2 ∙ nm,
      ap (λ (u : Cursor). u.rest) e0
          ∙ r1
          ∙ ap (◌++◌ t1) (r2 ∙ ap (◌++◌ t2) r3)
          ∙ sym (joined k1 k2 k3 c4.rest),
    )

-- One round hides a visible letter, and the line gets no longer.
hidden-fewer :
    (line : Text) (m : Found) (hidden : Text)
    → match_start operator_call line ≡ some m
    → hidden ≡ group_text m 1 ++ (map (λ c. b'_') (group_text m 2) ++ group_text m 3)
    → (visible hidden < visible line) × (length hidden ≤ length line)
unfolding visible
hidden-fewer line m hidden h e =
    let (x, name, tail, first, nm, whole) = operator_call-Split line m h in
    let g1 = group_text m 1 in
    let g2 = group_text m 2 in
    let g3 = group_text m 3 in
    let under : Text = map (λ c. b'_') g2 in
    let seen : visible g2 ≡ suc (visible name) = ap visible nm ∙ rw first refl in
    (
      omega (
        arith,
        ap visible e,
        ap visible whole,
        visible-append g1 (under ++ g3),
        visible-append under g3,
        visible-hidden g2,
        visible-append g1 (g2 ++ (g3 ++ tail)),
        visible-append g2 (g3 ++ tail),
        visible-append g3 tail,
        seen,
      ),
      omega (
        arith,
        ap (length {0}) e,
        ap (length {0}) whole,
        length-append {0} g1 (under ++ g3),
        length-append {0} under g3,
        hidden-length g2,
        length-append {0} g1 (g2 ++ (g3 ++ tail)),
        length-append {0} g2 (g3 ++ tail),
        length-append {0} g3 tail,
      ),
    )

hide_operators-Hidden :
    (fuel : ℕ) (line : Text)
    → visible line < fuel
    → (out : Text) × (hide_operators fuel line ≡ some out) × (length out ≤ length line)
unfolding hide_operators
hide_operators-Hidden zero line lt = absurd (omega arith)
hide_operators-Hidden (suc fuel) line lt = elim (Option-cases (match_start operator_call line)) [
  | inl n ↦ (line, rw (n, hide_operators), omega arith)
  | inr (m, q) ↦
      let hidden = group_text m 1 ++ (map (λ c. b'_') (group_text m 2) ++ group_text m 3) in
      let (fewer, shorter) = hidden-fewer line m hidden q refl in
      let (out, e, le) = hide_operators-Hidden fuel hidden (omega arith) in
      (out, rw (q, hide_operators) e, omega arith)
]

-- With the fuel that CheckOperatorSpacing gives, the loop ends, in a line that is no longer.
pub hide_operators-Returns :
    (line : Text)
    → (out : Text) × (hide_operators (length line + 1) line ≡ some out) × (length out ≤ length line)
hide_operators-Returns line =
    hide_operators-Hidden (length line + 1) line (omega (arith, visible-length line))
