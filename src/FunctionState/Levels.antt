-- ===== src/FunctionState/Levels.antt =====
-- The confidence of the report on a long function, against the verbosity.
use falcon_link.Prelude.{
  ℕ, zero, suc, ◌+◌, ◌*◌, ◌/◌, ◌^◌, ◌≤◌, ◌<◌, ◌≡◌, refl, ◌↔◌, inl, inr, true, ◌||◌, [], arith,
  codes, starts_with, Text, ltb, if◌then◌else◌, ltb→lt, Bool-cases, All,
}
use falcon_link.Report.{Report}
use native.Mathlib.Nat.{one-le-pow, two-pow-succ}
use falcon_link.FunctionState.{
  FunctionState, log2_go, log2, error_level, base_trigger, check, begin, count_line, end_function,
  is_test,
}

-- The logarithm is at least every power of two below the number.
log2_go-ge : (fuel v n : ℕ) → n ≤ fuel → 2 ^ v ≤ n → v ≤ log2_go fuel n
unfolding log2_go
log2_go-ge fuel zero n le h = omega arith
log2_go-ge zero (suc v) n le h = absurd (omega (arith, one-le-pow (suc v) 2 (omega arith)))
log2_go-ge (suc fuel) (suc v) n le h =
    let twice = two-pow-succ v in
    let pos = one-le-pow v 2 (omega arith) in
    let ih = log2_go-ge fuel v (n / 2) (omega (arith, pos, twice)) (omega (arith, twice)) in
    ground (arith, ih, pos, twice)

error_level-le : (lines base : ℕ) → error_level lines base ≤ 5
unfolding error_level
error_level-le lines base = ground arith

error_level-ge : (lines base v : ℕ) → v ≤ 5 → 2 ^ v ≤ lines / base → v ≤ error_level lines base
unfolding error_level log2
error_level-ge lines base v le h =
    ground (arith, log2_go-ge (lines / base) v (lines / base) (omega arith) h)

-- More lines than the trigger are at least as many times the base as the verbosity asks for.
past_trigger :
    (name : Text) (lines v : ℕ)
    → base_trigger name * 2 ^ v < lines
    → 2 ^ v ≤ lines / base_trigger name
unfolding base_trigger
past_trigger name lines v h = elim (Bool-cases (is_test name)) [
  | inl t ↦
      let k : 400 * 2 ^ v < lines = (rw (t, base_trigger) at h) in
      rw (t, base_trigger) (omega arith)
  | inr t ↦
      let k : 250 * 2 ^ v < lines = (rw (t, base_trigger) at h) in
      rw (t, base_trigger) (omega arith)
]

-- Up to verbosity 5 every report on a long function has a confidence that is at least the verbosity, so
-- that the verbosity never hides the report, and at most 5.
pub check-confidence :
    (filename : Text) (linenum v : ℕ) (s : FunctionState)
    → v ≤ 5
    → All (λ (r : Report). (v ≤ r.confidence) × (r.confidence ≤ 5)) (check filename linenum v s)
unfolding check
check-confidence filename linenum v s le =
    let base = base_trigger s.current_function in
    elim (Bool-cases s.in_a_function) [
      | inr out ↦ rw (check, out) tt
      | inl in_f ↦ elim (Bool-cases (ltb (base * 2 ^ v) s.lines_in_function)) [
        | inr short ↦ rw (check, in_f, short) tt
        | inl long ↦
            rw (check, in_f, long)
              (
                (
                  error_level-ge s.lines_in_function base v le
                      (past_trigger s.current_function s.lines_in_function v (ltb→lt _ _ long)),
                  error_level-le s.lines_in_function base,
                ),
                tt,
              )
      ]
    ]

-- The lines after which a function of the name is long at verbosity 0: more for tests.
abbrev pub long_from : Text → ℕ
long_from name =
    if starts_with name (codes "TEST") || starts_with name (codes "Test") then 400 else 250

-- The lines of a body, counted one by one.
abbrev pub count_lines : ℕ → FunctionState → FunctionState
count_lines zero s = s
count_lines (suc n) s = count_lines n (count_line s)

count_lines_lem :
    (n : ℕ) (s : FunctionState)
    → s.in_a_function ≡ true
    → ((count_lines n s).in_a_function ≡ true)
      × ((count_lines n s).lines_in_function ≡ s.lines_in_function + n)
      × ((count_lines n s).current_function ≡ s.current_function)
unfolding count_line
count_lines_lem zero s h = ground arith
count_lines_lem (suc n) s h = ground (arith, count_lines_lem n (count_line s))

-- For a function whose body has `n` lines Check makes no report exactly if `n` is at most the trigger,
-- whatever function was read before; after End it makes none.
pub check-begin :
    (filename name : Text) (linenum v n : ℕ) (s : FunctionState)
    → ((check filename linenum v (count_lines n (begin name s)) ≡ [])
        ↔ (n ≤ base_trigger name * 2 ^ v))
      × (check filename linenum v (end_function (count_lines n (begin name s))) ≡ [])
unfolding check begin end_function
check-begin filename name linenum v n s =
    let (c, l, f) = count_lines_lem n (begin name s) refl in
    ((λ h. ground (arith, c, l, f), λ h. ground (arith, c, l, f)), refl)
