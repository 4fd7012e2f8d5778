-- ===== src/RawStrings/Lines.antt =====
-- CleanseRawStrings never fails: its loop ends on every line, and the leading space that it asks for is
-- there. It keeps the number of lines.
use falcon_link.Prelude.{
  ℕ, zero, suc, ◌+◌, ◌-◌, ◌<◌, ◌≡◌, refl, ap, inl, inr, Bool, true, not, Option, none, some, List,
  [], ◌∷◌, ◌++◌, arith, any, all, codes, starts_with, find, is_space, Text, Bool-cases,
  Option-cases, none-ne-some, length, drop, length-append, length-drop,
}
use falcon_link.Regex.{non_space, Cursor, Found, match_start, at, run, capture, advance, found}
use falcon_link.Regex.Complete.{
  Succeeds, letter-Succeeds, star-letters, skip, skip-rest, skip-Rounds,
}
use falcon_link.RawStrings.{
  leading_space, find_raw_string, group_text, end_delimiter, replace_raw_strings, resume_line,
  cleanse_line, cleanse_from, cleanse_raw_strings,
}
use falcon_link.RawStrings.Shape.{find_raw_string-length}

-- The loop on one line returns; a delimiter that it leaves ends a raw string.
abbrev IsDelimiter : Option Text → Type 0
IsDelimiter none = Unit
IsDelimiter (some d) = (t : Text) × (d ≡ b')' ∷ t)

abbrev Returns : Option (Text × Option Text) → Type 0
Returns r = (line : Text) × (d : Option Text) × (r ≡ some (line, d)) × IsDelimiter d

two_quotes : length (codes "\"\"") ≡ 2
unfolding codes
two_quotes = refl

replace_raw_strings-Returns :
    (fuel : ℕ) (line : Text) → length line < fuel → Returns (replace_raw_strings fuel line)
unfolding replace_raw_strings
replace_raw_strings-Returns zero line h = absurd (omega arith)
replace_raw_strings-Returns (suc fuel) line h = elim (Option-cases (find_raw_string line)) [
  | inl off ↦ (line, none, rw (off, replace_raw_strings), tt)
  | inr (m, on) ↦ elim (Option-cases (find (group_text m 3) (end_delimiter m))) [
    | inl open_end ↦ (
      group_text m 1 ++ codes "\"\"",
      some (end_delimiter m),
      rw (on, open_end, replace_raw_strings),
      unfold end_delimiter codes in (group_text m 2 ++ codes "\"", refl),
    )
    | inr (end, close) ↦
        let rest = drop (end + length (end_delimiter m)) (group_text m 3) in
        let next = group_text m 1 ++ (codes "\"\"" ++ rest) in
        let short : length next < fuel = omega (
          arith,
          find_raw_string-length line m on,
          length-append {0} (group_text m 1) (codes "\"\"" ++ rest),
          length-append {0} (codes "\"\"") rest,
          length-drop {0} (end + length (end_delimiter m)) (group_text m 3),
          two_quotes,
        ) in
        let (l, d, e, q) = replace_raw_strings-Returns fuel next short in
        (l, d, rw (on, close, replace_raw_strings) e, q)
  ]
]

-- A text that holds another one that begins with a letter holds that letter.
find-any :
    (s p : Text) (c i : ℕ) (test : ℕ → Bool)
    → test c ≡ true
    → find s (c ∷ p) ≡ some i
    → any test s ≡ true
unfolding find starts_with any
find-any [] p c i test t h = absurd (none-ne-some h)
find-any (x ∷ s) p c i test t h = elim (Bool-cases (test x)) [
  | inl here ↦ rw here
  | inr not_here ↦ ground (arith, find-any s p c (i - 1) test t)
]

-- The first letter of a text that is no space, and the spaces before it.
first_non_space :
    (s : Text)
    → any (λ c. not (is_space c)) s ≡ true
    → (xs : Text) × (x : ℕ) × (rest : Text) × (s ≡ xs ++ x ∷ rest)
      × (all is_space xs ≡ true)
      × (not (is_space x) ≡ true)
unfolding any all
first_non_space [] h = absurd (cc)
first_non_space (c ∷ s) h = elim (Bool-cases (is_space c)) [
  | inr here ↦ ([], c, s, refl, refl, rw here)
  | inl skipped ↦
      let (xs, x, rest, e, spaces, last) = first_non_space s (ground arith) in
      (c ∷ xs, x, rest, ap (◌∷◌ c) e, ground arith, last)
]

non_space-Succeeds :
    (c : Cursor) (x : ℕ) (rest : Text)
    → c.rest ≡ x ∷ rest
    → not (is_space x) ≡ true
    → Succeeds (run non_space some c)
non_space-Succeeds c x rest e h =
    (advance c x rest, letter-Succeeds (λ y. not (is_space y)) some c x rest e h)

leading_space-run :
    (line xs : Text) (x : ℕ) (rest : Text)
    → line ≡ xs ++ x ∷ rest
    → all is_space xs ≡ true
    → not (is_space x) ≡ true
    → Succeeds (run leading_space some (at [] line))
unfolding run leading_space
leading_space-run line xs x rest e spaces h =
    let c = at [] line in
    let after = skip c xs (x ∷ rest) in
    star-letters is_space (λ d. run non_space some (capture 1 c d))
      (skip-Rounds is_space c xs (x ∷ rest) e spaces)
      (non_space-Succeeds (capture 1 c after) x rest (skip-rest c xs (x ∷ rest) e) h)

leading_space-matches :
    (line : Text)
    → any (λ c. not (is_space c)) line ≡ true
    → (m : Found) × (match_start leading_space line ≡ some m)
unfolding match_start
leading_space-matches line h =
    let (xs, x, rest, e, spaces, last) = first_non_space line h in
    let (d, q) = leading_space-run line xs x rest e spaces last in
    (found (at [] line) d, rw (q, match_start))

paren_is_no_space : not (is_space b')') ≡ true
unfolding is_space
paren_is_no_space = refl

-- What the first part of a round leaves: a line without an open raw string, or the open one.
resume_line-Returns : (t line : Text) → Returns (resume_line (b')' ∷ t) line)
unfolding resume_line
resume_line-Returns t line = elim (Option-cases (find line (b')' ∷ t))) [
  | inl off ↦ (codes "\"\"", some (b')' ∷ t), rw (off, resume_line), (t, refl))
  | inr (end, on) ↦
      let (m, q) =
        leading_space-matches line
          (find-any line t b')' end (λ c. not (is_space c)) paren_is_no_space on) in
      (
        group_text m 1 ++ (codes "\"\"" ++ drop (end + length (b')' ∷ t)) line),
        none,
        rw (on, q, resume_line),
        tt,
      )
]

cleanse_line-Returns :
    (d : Option Text) (line : Text) → IsDelimiter d → Returns (cleanse_line d line)
unfolding cleanse_line
cleanse_line-Returns none line h = replace_raw_strings-Returns (length line + 1) line (omega arith)
cleanse_line-Returns (some d) line (t, e) = rw e (resumed (resume_line-Returns t line))
  where
    resumed : Returns (resume_line (b')' ∷ t) line) → Returns (cleanse_line (some (b')' ∷ t)) line)
    resumed (l, none, q, _) =
        rw (q, cleanse_line) (replace_raw_strings-Returns (length l + 1) l (omega arith))
    resumed (l, some d', q, k) = (l, some d', rw (q, cleanse_line), k)

cleanse_from-Returns :
    (d : Option Text) (lines : List Text)
    → IsDelimiter d
    → (out : List Text) × (cleanse_from d lines ≡ some out) × (length out ≡ length lines)
unfolding cleanse_from
cleanse_from-Returns d [] h = ([], refl, refl)
cleanse_from-Returns d (line ∷ lines) h =
    let (l, d', e, h') = cleanse_line-Returns d line h in
    let (out, q, same) = cleanse_from-Returns d' lines h' in
    (l ∷ out, rw (e, q, cleanse_from), ap suc same)

-- CleanseRawStrings returns on every list of lines, with as many lines: its inner loop ends, and where a
-- raw string ends the match of the leading space is never None.
pub cleanse_raw_strings-Returns :
    (lines : List Text)
    → (out : List Text) × (cleanse_raw_strings lines ≡ some out) × (length out ≡ length lines)
unfolding cleanse_raw_strings
cleanse_raw_strings-Returns lines = cleanse_from-Returns none lines tt
