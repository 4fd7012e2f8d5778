-- ===== src/BlankLines/Previous.antt =====
-- The line that GetPreviousNonBlankLine finds is the last one before that is not blank.
use falcon_link.Prelude.{
  ℕ, zero, suc, ◌≤◌, ◌<◌, ◌≡◌, refl, subst, inl, inr, true, false, Option, none, some, List, arith,
  dec_lt, Text, Bool-cases, length, get_elem?, get_elem?-some,
}
use falcon_link.CleansedLines.{CleansedLines}
use falcon_link.BlankLines.{is_blank_line, previous_non_blank, get_previous_non_blank_line}

-- Line `k` is there, and blank.
abbrev pub IsBlankAt : List Text → ℕ → Type 0
IsBlankAt elided k = (line : Text) × (get_elem? elided k ≡ some line) × (is_blank_line line ≡ true)

-- The answer is the last line before `linenum` that is not blank, or there is none.
abbrev pub IsPrevious : List Text → ℕ → Option (Text × ℕ) → Type 0
IsPrevious elided linenum none = (k : ℕ) → k < linenum → IsBlankAt elided k
IsPrevious elided linenum (some (line, n)) =
    (n < linenum)
    × (get_elem? elided n ≡ some line)
    × (is_blank_line line ≡ false)
    × ((k : ℕ) → n < k → k < linenum → IsBlankAt elided k)

IsPrevious-suc :
    (elided : List Text) (n : ℕ) (r : Option (Text × ℕ))
    → IsBlankAt elided n
    → IsPrevious elided n r
    → IsPrevious elided (suc n) r
IsPrevious-suc elided n none b h = λ k lt. elim (dec_lt k n) [
  | yes less ↦ h k less
  | no more ↦ let e : n ≡ k = omega arith in subst (IsBlankAt elided) e b
]
IsPrevious-suc elided n (some (line, m)) b (lt, at, full, h) = (
  omega arith,
  at,
  full,
  λ k gt less. elim (dec_lt k n) [
    | yes before ↦ h k gt before
    | no more ↦ let e : n ≡ k = omega arith in subst (IsBlankAt elided) e b
  ],
)

previous_non_blank-IsPrevious :
    (elided : List Text) (linenum : ℕ)
    → linenum ≤ length elided
    → (r : Option (Text × ℕ)) × (previous_non_blank elided linenum ≡ some r)
      × IsPrevious elided linenum r
unfolding previous_non_blank
previous_non_blank-IsPrevious elided zero le = (none, refl, λ k lt. absurd (omega arith))
previous_non_blank-IsPrevious elided (suc n) le =
    let (line, at) = get_elem?-some elided n (omega arith) in
    elim (Bool-cases (is_blank_line line)) [
      | inl blank ↦
          let (r, e, h) = previous_non_blank-IsPrevious elided n (omega arith) in
          (r, rw (at, blank, previous_non_blank) e, IsPrevious-suc elided n r (line, at, blank) h)
      | inr full ↦ (
        some (line, n),
        rw (at, full, previous_non_blank) refl,
        (omega arith, at, full, λ k gt less. absurd (omega arith)),
      )
    ]

-- From a line of the file, or from behind the last one, GetPreviousNonBlankLine raises nothing: it
-- gives the last line before that one that is not blank, with its number, or says that there is
-- none, and all lines between, or all before, are blank.
pub get_previous_non_blank_line-IsPrevious :
    (lines : CleansedLines) (linenum : ℕ)
    → linenum ≤ length lines.elided
    → (r : Option (Text × ℕ)) × (get_previous_non_blank_line lines linenum ≡ some r)
      × IsPrevious lines.elided linenum r
unfolding get_previous_non_blank_line
get_previous_non_blank_line-IsPrevious lines linenum le =
    previous_non_blank-IsPrevious lines.elided linenum le
