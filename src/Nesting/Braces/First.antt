-- ===== src/Nesting/Braces/First.antt =====
-- What the pattern of Update for a brace, a semicolon or a closed parenthesis finds.
use falcon_link.Prelude.{
  ℕ, ◌≡◌, refl, sym, ap, subst, ◌∙◌, ◌⊎◌, inl, inr, Bool, true, not, none, some, [], ◌∷◌, ◌++◌,
  append-nil, arith, all, codes, Text, Bool-cases, and_true, none-ne-some,
}
use falcon_link.Regex.{
  at_finish, at_finish_text, letter, star, finish, group, dot, one_of, none_of, contains, seq,
  Cursor, Found, match_start, group_of, at, run, capture, found, advance, between,
}
use falcon_link.Regex.Sound.{Matches, match_start-IsSound}
use falcon_link.Regex.Spans.{Rounds-letters, between-append, Matches-groups}
use falcon_link.Regex.Complete.{
  Succeeds, finish-Succeeds, star-letters, letter-Succeeds, skip, skip-rest, skip-Rounds,
}
use falcon_link.RawStrings.{group_text}
use falcon_link.CleansedLines.Quotes.{no_newline}
use falcon_link.Nesting.Braces.{brace_pattern}

abbrev pub is_brace : ℕ → Bool
is_brace c = contains c (codes "{;)}")

abbrev pub other_letter : ℕ → Bool
other_letter c = not (contains c (codes "{;)}"))

pub all-append :
    (p : ℕ → Bool) (xs ys : Text) → all p (xs ++ ys) ≡ true → (all p xs ≡ true) × (all p ys ≡ true)
unfolding all
all-append p [] ys h = (refl, h)
all-append p (x ∷ xs) ys h =
    let (hx, hr) = and_true (p x) (all p (xs ++ ys)) h in
    let (hxs, hys) = all-append p xs ys hr in (rw (hx, hxs), hys)

-- The text up to the place where a one-line text ends is all of it.
finish-nil : (t : Text) → at_finish_text t ≡ true → all no_newline t ≡ true → t ≡ []
unfolding at_finish_text all
finish-nil [] h one_line = refl
finish-nil (c ∷ []) h one_line = ground arith
finish-nil (c ∷ d ∷ t) h one_line = ground arith

-- What the pattern finds: the letters before the first brace, the brace, and the rest.
pub record FirstBrace (line : Text) (m : Found) : Type 0 where
  pub prefix : Text
  pub token : ℕ
  pub rest : Text
  pub parts : line ≡ prefix ++ token ∷ rest
  pub clear : all other_letter prefix ≡ true
  pub brace : is_brace token ≡ true
  pub first : group_text m 1 ≡ token ∷ []
  pub second : group_text m 2 ≡ rest

brace_shape :
    (c d : Cursor)
    → Matches brace_pattern c d
    → (a : Text) × (t : ℕ) × (x : Text) × (c.rest ≡ a ++ t ∷ (x ++ d.rest))
      × (all other_letter a ≡ true)
      × (is_brace t ≡ true)
      × (at_finish_text d.rest ≡ true)
      × (d.groups ≡ (2, x) ∷ (1, t ∷ []) ∷ c.groups)
unfolding brace_pattern one_of none_of at_finish
brace_shape c d (c1, s, (c2, r1, (c3, (m, (t, r, e, pt, adv), cap), (c4, (m2, r2, cap2), fin)))) =
    let (a, ea, ca) = Rounds-letters other_letter r1 in
    let (x, ex, cx) = Rounds-letters no_newline r2 in
    let rest_of = λ (u : Cursor). u.rest in
    let groups_of = λ (u : Cursor). u.groups in
    let g1 = Matches-groups (star (letter other_letter)) refl c1 c2 r1 in
    let g2 = Matches-groups (star dot) refl c3 m2 r2 in
    let b1 : between c2 m ≡ t ∷ [] =
      between-append c2 m (t ∷ []) (e ∙ ap (λ (u : Text). t ∷ u) (ap rest_of adv)) in
    let b2 : between c3 m2 ≡ x = between-append c3 m2 x ex in
    let q1 : (1, between c2 m) ∷ m.groups ≡ c3.groups = ap groups_of cap in
    let q2 : (2, between c3 m2) ∷ m2.groups ≡ c4.groups = ap groups_of cap2 in
    let q3 : c4.groups ≡ d.groups = ap groups_of fin.1 in
    let q4 : c.groups ≡ c1.groups = ap groups_of s.1 in
    let q5 : c2.groups ≡ m.groups = ap groups_of adv in
    let to_m : r ≡ m.rest = ap rest_of adv in
    let to_c3 : m.rest ≡ c3.rest = ap rest_of cap in
    let to_c4 : m2.rest ≡ c4.rest = ap rest_of cap2 in
    let to_d : c4.rest ≡ d.rest = ap rest_of fin.1 in
    let finished : at_finish_text d.rest ≡ true =
      subst (λ (u : Cursor). at_finish_text u.rest ≡ true) fin.1 fin.0 in
    let first : c.rest ≡ a ++ c2.rest = ap rest_of s.1 ∙ ea in
    let tail : c2.rest ≡ t ∷ (x ++ d.rest) =
      e ∙ ap (◌∷◌ t) (to_m ∙ to_c3 ∙ ex ∙ ap (λ (u : Text). x ++ u) (to_c4 ∙ to_d)) in
    (a, t, x, first ∙ ap (λ (u : Text). a ++ u) tail, ca, pt, finished, cc)

shape_groups :
    (m : Found) {a b : Text}
    → m.groups ≡ (2, b) ∷ (1, a) ∷ []
    → (group_text m 1 ≡ a) × (group_text m 2 ≡ b)
unfolding group_of
shape_groups m e = (rw (e, group_of), rw (e, group_of))

-- In a text of one line the pattern finds the first brace.
pub first_brace :
    (line : Text) (m : Found)
    → all no_newline line ≡ true
    → match_start brace_pattern line ≡ some m
    → FirstBrace line m
first_brace line m one_line h =
    let (d, k, same) = match_start-IsSound brace_pattern line m h in
    of_place d same (brace_shape (at [] line) d k)
  where
    of_place :
        (d : Cursor)
        → found (at [] line) d ≡ m
        → ((a : Text) × (t : ℕ) × (x : Text) × (line ≡ a ++ t ∷ (x ++ d.rest))
            × (all other_letter a ≡ true)
            × (is_brace t ≡ true)
            × (at_finish_text d.rest ≡ true)
            × (d.groups ≡ (2, x) ∷ (1, t ∷ []) ∷ []))
        → FirstBrace line m
    of_place d same (a, t, x, parts, clear, brace, ends, g) =
        let g' : m.groups ≡ (2, x) ∷ (1, t ∷ []) ∷ [] =
          ap (λ (f : Found). f.groups) (sym same) ∙ g in
        let (g1, g2) = shape_groups m {a = t ∷ []} {b = x} g' in
        let tail : all no_newline (t ∷ (x ++ d.rest)) ≡ true =
          (all-append no_newline a (t ∷ (x ++ d.rest))
            (subst (λ (u : Text). all no_newline u ≡ true) parts one_line)).1 in
        let over : all no_newline d.rest ≡ true = (all-append no_newline (t ∷ x) d.rest tail).1 in
        let empty_rest : d.rest ≡ [] = finish-nil d.rest ends over in
        record {
          prefix = a;
          token = t;
          rest = x;
          parts =
              parts
              ∙ ap (λ (u : Text). a ++ t ∷ u) (ap (λ (u : Text). x ++ u) empty_rest ∙ append-nil x);
          clear = clear;
          brace = brace;
          first = g1;
          second = g2;
        }

-- A brace behind other letters is found.
brace-run :
    (a : Text) (t : ℕ) (x : Text)
    → all other_letter a ≡ true
    → is_brace t ≡ true
    → all no_newline x ≡ true
    → Succeeds (run brace_pattern some (at [] (a ++ t ∷ x)))
unfolding run brace_pattern one_of none_of
brace-run a t x ha ht hx =
    let c = at [] (a ++ t ∷ x) in
    let c2 = skip c a (t ∷ x) in
    let k = λ (d : Cursor). run (seq (group 2 (star dot)) finish) some (capture 1 c2 d) in
    let c3 = capture 1 c2 (advance c2 t x) in
    let e : x ≡ x ++ [] = sym (append-nil x) in
    star-letters other_letter
      (run (seq (group 1 (letter is_brace)) (seq (group 2 (star dot)) finish)) some)
      (skip-Rounds other_letter c a (t ∷ x) refl ha)
      (rw (letter-Succeeds is_brace k c2 t x (skip-rest c a (t ∷ x) refl) ht) (
        star-letters no_newline (λ d. run finish some (capture 2 c3 d))
          (skip-Rounds no_newline c3 x [] e hx)
          (finish-Succeeds (capture 2 c3 (skip c3 x [])) (skip-rest c3 x [] e))))

-- A text has no brace, or a first one.
brace-cases :
    (line : Text)
    → (all other_letter line ≡ true)
      ⊎ ((a : Text) × (t : ℕ) × (x : Text) × (line ≡ a ++ t ∷ x)
          × (all other_letter a ≡ true)
          × (is_brace t ≡ true))
unfolding all
brace-cases [] = inl refl
brace-cases (c ∷ line) = elim (Bool-cases (is_brace c)) [
  | inl t ↦ inr ([], c, line, refl, refl, t)
  | inr f ↦ elim (brace-cases line) [
    | inl h ↦ inl (rw (f, h))
    | inr (a, t, x, e, h, b) ↦ inr (c ∷ a, t, x, ap (◌∷◌ c) e, rw (f, h), b)
  ]
]

pub no_brace :
    (line : Text)
    → all no_newline line ≡ true
    → match_start brace_pattern line ≡ none
    → all other_letter line ≡ true
unfolding match_start all
no_brace line one_line off = elim (brace-cases line) [
  | inl h ↦ h
  | inr (a, t, x, e, ha, ht) ↦
      let tail : all no_newline (t ∷ x) ≡ true =
        (all-append no_newline a (t ∷ x)
          (subst (λ (u : Text). all no_newline u ≡ true) e one_line)).1 in
      let (d, q) = brace-run a t x ha ht (and_true (no_newline t) (all no_newline x) tail).1 in
      let on : run brace_pattern some (at [] line) ≡ some d =
        ap (λ (u : Text). run brace_pattern some (at [] u)) e ∙ q in
      let clash : none ≡ some (found (at [] line) d) = sym off ∙ (rw (on, match_start)) in
      absurd (none-ne-some clash)
]
