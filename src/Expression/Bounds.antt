-- ===== src/Expression/Bounds.antt =====
-- Where CloseExpression and ReverseCloseExpression may point.
use falcon_link.Prelude.{
  ℕ, suc, ◌+◌, ◌≤◌, ◌<◌, ◌≡◌, refl, sym, ap, ◌∙◌, ◌≢◌, ◌⊎◌, inl, inr, Bool, not, ◌&&◌, ◌||◌, Option,
  none, some, List, [], ◌∷◌, reverse, arith, Text, ltb, ◌==◌, if◌then◌else◌, Bool-cases, if-eq,
  length, get_elem?, take, drop, length-drop, get_elem?-lt, get_elem?-drop, get_elem?-some,
}
use falcon_link.CleansedLines.{CleansedLines}
use falcon_link.CleansedLines.Copies.{SameLengths}
use falcon_link.Expression.{
  is_open, is_close, is_shift_or_le, previous_is, ends_operator, Scan, at_index, unclosed, pending,
  Step, stop, go, go_twice, end_step, scan_end, pop_all, popped, close_bracket, shift_left,
  close_angle, find_end_of_expression_in_line, close_forward, close_at, close_expression,
}

popped-at_index : (i p : ℕ) (st : List ℕ) → popped (at_index i) st ≡ stop (at_index p) → p ≡ i
unfolding popped
popped-at_index i p [] h = ground arith
popped-at_index i p (s ∷ st) h = ground arith

popped-unclosed : (p : ℕ) (st : List ℕ) → popped unclosed st ≢ stop (at_index p)
unfolding popped
popped-unclosed p [] h = ground arith
popped-unclosed p (s ∷ st) h = ground arith

close_bracket-at_index :
    (c i p : ℕ) (st : List ℕ) → close_bracket c i st ≡ stop (at_index p) → p ≡ i + 1
unfolding close_bracket
close_bracket-at_index c i p [] h = ground arith
close_bracket-at_index c i p (s ∷ st) h = ground (arith, popped-at_index (i + 1) p st)

shift_left-at_index : (p : ℕ) (st : List ℕ) → shift_left st ≢ stop (at_index p)
unfolding shift_left
shift_left-at_index p [] h = ground arith
shift_left-at_index p (s ∷ st) h = ground (arith, popped-unclosed p st)

close_angle-at_index : (i p : ℕ) (st : List ℕ) → close_angle i st ≡ stop (at_index p) → p ≡ i + 1
unfolding close_angle
close_angle-at_index i p [] h = ground arith
close_angle-at_index i p (s ∷ st) h = ground (arith, popped-at_index (i + 1) p st)

go-ne-stop : {st : List ℕ} {s : Scan} → go st ≢ stop s
go-ne-stop e = cc

angle-ne-stop :
    (b : Bool) (st : List ℕ) (p : ℕ) → (if b then go st else go (b'<' ∷ st)) ≢ stop (at_index p)
angle-ne-stop b st p h = ground arith

end_step-at_index :
    (b : Text) (c i p : ℕ) (st : List ℕ) → end_step b c i st ≡ stop (at_index p) → p ≡ i + 1
unfolding end_step
end_step-at_index b c i p st h = elim (if-eq (is_open c) h) [
  | inl e ↦ absurd (go-ne-stop e)
  | inr h1 ↦ elim (if-eq (c == b'<') h1) [
    | inl h2 ↦ elim (if-eq (previous_is b'<' b) h2) [
      | inl e ↦ absurd (shift_left-at_index p st e)
      | inr h3 ↦ absurd (angle-ne-stop (ltb 0 i && ends_operator b) st p h3)
    ]
    | inr h2 ↦ elim (if-eq (is_close c) h2) [
      | inl e ↦ close_bracket-at_index c i p (pop_all b'<' st) e
      | inr h3 ↦ elim (if-eq (c == b'>') h3) [
        | inl h4 ↦ elim (if-eq (ltb 0 i && (previous_is b'-' b || ends_operator (drop 1 b))) h4) [
          | inl e ↦ absurd (go-ne-stop e)
          | inr e ↦ close_angle-at_index i p st e
        ]
        | inr h4 ↦ elim (if-eq (c == b';') h4) [
          | inl e ↦ absurd (popped-unclosed p (pop_all b'<' st) e)
          | inr e ↦ absurd (go-ne-stop e)
        ]
      ]
    ]
  ]
]

Step-cases :
    (s : Step) → ((r : Scan) × (s ≡ stop r)) ⊎ ((st : List ℕ) × ((s ≡ go st) ⊎ (s ≡ go_twice st)))
Step-cases (stop r) = inl (r, refl)
Step-cases (go st) = inr (st, inl refl)
Step-cases (go_twice st) = inr (st, inr refl)

pending-ne-at_index : {st : List ℕ} {p : ℕ} → pending st ≢ at_index p
pending-ne-at_index e = cc

scan_end-at_index :
    (b rest : Text) (i p : ℕ) (st : List ℕ)
    → scan_end b rest i st ≡ at_index p
    → (i < p) × (p ≤ i + length rest)
unfolding scan_end
scan_end-at_index b [] i p st h = absurd (pending-ne-at_index h)
scan_end-at_index b (c ∷ rest) i p st h = elim (Step-cases (end_step b c i st)) [
  | inl (r, e) ↦
      let q : r ≡ at_index p = (rw (e, scan_end) at h) in
      let k = end_step-at_index b c i p st (e ∙ ap stop q) in (omega arith, omega arith)
  | inr (next, inl e) ↦
      let (lo, hi) = scan_end-at_index (c ∷ b) rest (i + 1) p next (rw (e, scan_end) at h) in
      (omega arith, omega arith)
  | inr (next, inr e) ↦
      let (lo, hi) = scan_end-at_index (c ∷ b) rest (i + 1) p next (rw (e, scan_end) at h) in
      (omega arith, omega arith)
]

-- The index that FindEndOfExpressionInLine returns is behind the start and in the line.
pub find_end-at_index :
    (line : Text) (start p : ℕ) (st : List ℕ)
    → find_end_of_expression_in_line line start st ≡ at_index p
    → start ≤ length line
    → (start < p) × (p ≤ length line)
unfolding find_end_of_expression_in_line
find_end-at_index line start p st h le =
    let (lo, hi) = scan_end-at_index (reverse (take start line)) (drop start line) start p st h in
    (lo, omega (arith, length-drop {0} start line))

-- The answer points into the lines, not before the place where the search began, or gives up at the end.
abbrev pub PointsInto : CleansedLines → ℕ → Text × ℕ × Option ℕ → Type 0
PointsInto lines linenum (line, n, none) = n ≡ lines.num_lines
PointsInto lines linenum (line, n, some p) =
    (linenum ≤ n)
    × (n < lines.num_lines)
    × (get_elem? lines.elided n ≡ some line)
    × (0 < p)
    × (p ≤ length line)

-- The lines that are left are those of the file behind the current one.
abbrev Ahead : List Text → ℕ → List Text → Type 0
Ahead elided linenum rest = (k : ℕ) → get_elem? elided (linenum + 1 + k) ≡ get_elem? rest k

Ahead-tail :
    (elided : List Text) (linenum : ℕ) (next : Text) (rest : List Text)
    → Ahead elided linenum (next ∷ rest)
    → Ahead elided (linenum + 1) rest
Ahead-tail elided linenum next rest h k =
    let e : linenum + 1 + 1 + k ≡ linenum + 1 + suc k = omega arith in rw e (h (suc k))

Ahead-head :
    (elided : List Text) (linenum : ℕ) (next : Text) (rest : List Text)
    → Ahead elided linenum (next ∷ rest)
    → get_elem? elided (linenum + 1) ≡ some next
Ahead-head elided linenum next rest h =
    let e : linenum + 1 ≡ linenum + 1 + 0 = omega arith in rw e (h 0)

pub Scan-cases :
    (s : Scan)
    → ((p : ℕ) × (s ≡ at_index p)) ⊎ ((s ≡ unclosed) ⊎ ((st : List ℕ) × (s ≡ pending st)))
Scan-cases (at_index p) = inl (p, refl)
Scan-cases unclosed = inr (inl refl)
Scan-cases (pending st) = inr (inr (st, refl))

module _ (lines : CleansedLines) (same : SameLengths lines) where
  PointsInto-at :
      (begin n p start : ℕ) (line : Text) (st : List ℕ)
      → begin ≤ n
      → get_elem? lines.elided n ≡ some line
      → start ≤ length line
      → find_end_of_expression_in_line line start st ≡ at_index p
      → PointsInto lines begin (line, n, some p)
  PointsInto-at begin n p start line st le here inside e =
      let (lo, hi) = find_end-at_index line start p st e inside in
      let lt = get_elem?-lt lines.elided n here in
      (le, omega (arith, lt, same.elided), here, omega arith, hi)

  close_forward-PointsInto :
      (begin : ℕ) (rest : List Text) (line : Text) (linenum : ℕ) (st : List ℕ)
      → begin ≤ linenum
      → Ahead lines.elided linenum rest
      → PointsInto lines begin (close_forward lines.num_lines rest line linenum st)
  unfolding close_forward
  close_forward-PointsInto begin [] line linenum st le ahead = refl
  close_forward-PointsInto begin (next ∷ rest) line linenum [] le ahead = refl
  close_forward-PointsInto begin (next ∷ rest) line linenum (s ∷ st) le ahead =
      elim (Scan-cases (find_end_of_expression_in_line next 0 (s ∷ st))) [
        | inl (p, e) ↦
            rw (e, close_forward)
              (PointsInto-at begin (linenum + 1) p 0 next (s ∷ st) (omega arith)
                (Ahead-head lines.elided linenum next rest ahead) (omega arith) e)
        | inr (inl e) ↦ rw (e, close_forward) refl
        | inr (inr (more, e)) ↦
            rw (e, close_forward)
              (close_forward-PointsInto begin rest next (linenum + 1) more (omega arith)
                (Ahead-tail lines.elided linenum next rest ahead))
      ]

  close_at-PointsInto :
      (linenum pos : ℕ) (line : Text) (c : ℕ)
      → get_elem? lines.elided linenum ≡ some line
      → get_elem? line pos ≡ some c
      → PointsInto lines linenum (close_at lines linenum pos line c)
  unfolding close_at
  close_at-PointsInto linenum pos line c here at =
      elim (Bool-cases (not (is_open c || c == b'<') || is_shift_or_le (drop pos line))) [
        | inl off ↦ rw (off, close_at) refl
        | inr on ↦ elim (Scan-cases (find_end_of_expression_in_line line pos [])) [
          | inl (p, e) ↦
              rw (on, e, close_at)
                (PointsInto-at linenum linenum p pos line [] (omega arith) here
                  (omega (arith, get_elem?-lt line pos at)) e)
          | inr (inl e) ↦ rw (on, e, close_at) refl
          | inr (inr (more, e)) ↦
              rw (on, e, close_at)
                (close_forward-PointsInto linenum (drop (linenum + 1) lines.elided) line linenum
                  more (omega arith) (λ k. sym (get_elem?-drop (linenum + 1) k lines.elided)))
        ]
      ]

-- In copies of one length, and from a place inside a line, CloseExpression returns; its answer is a position
-- inside a line that is not before the first one, with that line as its text, or the number of lines and
-- no position.
pub close_expression-PointsInto :
    (lines : CleansedLines) (linenum pos : ℕ) (line : Text)
    → SameLengths lines
    → get_elem? lines.elided linenum ≡ some line
    → pos < length line
    → (r : Text × ℕ × Option ℕ) × (close_expression lines linenum pos ≡ some r)
      × PointsInto lines linenum r
unfolding close_expression
close_expression-PointsInto lines linenum pos line same here inside =
    let (c, at) = get_elem?-some line pos inside in
    (
      close_at lines linenum pos line c,
      rw (here, at, close_expression),
      close_at-PointsInto lines same linenum pos line c here at,
    )
