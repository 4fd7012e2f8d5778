-- ===== src/RawStrings/Shape.antt =====
-- What the two patterns match: a raw string has a place in its line, and a line with a letter that is
-- no space has a first one.
use falcon_link.Prelude.{
  ℕ, suc, ◌+◌, ◌≤◌, ◌≡◌, refl, ap, inl, inr, true, some, [], ◌∷◌, arith, codes, Text, ◌==◌, length,
}
use falcon_link.Regex.{
  Regex, letter, star, lazy, one, dot, Cursor, Found, match_start, group_of, at, word, word_of, alt,
  found,
}
use falcon_link.Regex.Sound.{Matches, match_start-IsSound}
use falcon_link.Regex.Spans.{Matches-length, Matches-groups, letter-length, groupless, group_facts}
use falcon_link.RawStrings.{delimiter_letter, raw_string, group_text, find_raw_string}

groupless_word : (t : Text) → groupless (word_of t) ≡ true
unfolding word_of
groupless_word [] = refl
groupless_word (c ∷ t) = groupless_word t

-- The lengths that a group and the place behind it have.
abbrev left : Cursor → ℕ
left c = length c.rest

-- One of the prefixes of a raw string.
abbrev prefixes : Regex
prefixes = alt (one b'R') (alt (word "u8R") (alt (word "uR") (alt (word "UR") (word "LR"))))

word_step :
    (x : ℕ) (t : Text) (c d : Cursor) → Matches (word_of (x ∷ t)) c d → suc (left d) ≤ left c
unfolding word_of
word_step x t c d (m, h, k) =
    omega (arith, (letter-length _ c m h).0, Matches-length (word_of t) m d k)

prefixes_facts :
    (c d : Cursor) → Matches prefixes c d → (suc (left d) ≤ left c) × (d.groups ≡ c.groups)
unfolding word codes
prefixes_facts c d h = (step h, Matches-groups prefixes (unfold word_of in refl) c d h)
  where
    step : Matches prefixes c d → suc (left d) ≤ left c
    step (inl k) = omega (arith, (letter-length (λ y. y == b'R') c d k).0)
    step (inr (inl k)) = word_step b'u' (codes "8R") c d k
    step (inr (inr (inl k))) = word_step b'u' (codes "R") c d k
    step (inr (inr (inr (inl k)))) = word_step b'U' (codes "R") c d k
    step (inr (inr (inr (inr k)))) = word_step b'L' (codes "R") c d k

-- The groups of a match, and that three letters of the line are in none of the first and the last.
pub raw_string_shape :
    (c d : Cursor)
    → Matches raw_string c d
    → (a : Text) × (b : Text) × (x : Text) × (d.groups ≡ (3, x) ∷ (2, b) ∷ (1, a) ∷ c.groups)
      × (length a + length x + 3 ≤ left c)
unfolding raw_string
raw_string_shape c d
      (c1, s, (c2, g1, (c3, bnd, (c4, pre, (c5, quote, (c6, g2, (c7, paren, (c8, g3, fin)))))))) =
    let (a, ga, la) = group_facts 1 (lazy dot) c1 c2 refl g1 in
    let (lp, gp) = prefixes_facts c3 c4 pre in
    let (lq, gq) = letter-length (λ y. y == b'"') c4 c5 quote in
    let (b, gb, lb) = group_facts 2 (star (letter delimiter_letter)) c5 c6 refl g2 in
    let (lo, go) = letter-length (λ y. y == b'(') c6 c7 paren in
    let (x, gx, lx) = group_facts 3 (star dot) c7 c8 refl g3 in
    let e0 = s.1 in
    let e1 = bnd.1 in
    let e2 = fin.1 in
    (
      a,
      b,
      x,
      cc,
      omega (
        arith,
        la,
        lp,
        lq,
        lb,
        lo,
        lx,
        ap (λ (u : Cursor). length u.rest) e0,
        ap (λ (u : Cursor). length u.rest) e1,
      ),
    )

three_groups :
    (m : Found) {a b x : Text}
    → m.groups ≡ (3, x) ∷ (2, b) ∷ (1, a) ∷ []
    → (group_text m 1 ≡ a) × (group_text m 3 ≡ x)
unfolding group_of
three_groups m e = (rw (e, group_of), rw (e, group_of))

bound_of :
    (line : Text) (m : Found) (d : Cursor) (a b x : Text)
    → found (at [] line) d ≡ m
    → d.groups ≡ (3, x) ∷ (2, b) ∷ (1, a) ∷ []
    → length a + length x + 3 ≤ length line
    → length (group_text m 1) + length (group_text m 3) + 3 ≤ length line
bound_of line m d a b x same g le =
    let e : m.groups ≡ (3, x) ∷ (2, b) ∷ (1, a) ∷ [] = cc in
    let (ga, gx) = three_groups m {a = a} {b = b} {x = x} e in
    omega (arith, le, ap (length {0}) ga, ap (length {0}) gx)

of_place :
    (line : Text) (m : Found) (d : Cursor)
    → Matches raw_string (at [] line) d
    → found (at [] line) d ≡ m
    → length (group_text m 1) + length (group_text m 3) + 3 ≤ length line
of_place line m d k same = go (raw_string_shape (at [] line) d k)
  where
    go :
        ((a : Text) × (b : Text) × (x : Text) × (d.groups ≡ (3, x) ∷ (2, b) ∷ (1, a) ∷ [])
          × (length a + length x + 3 ≤ length line))
        → length (group_text m 1) + length (group_text m 3) + 3 ≤ length line
    go (a, b, x, g, le) = bound_of line m d a b x same g le

-- A raw string in a line: the text before it and what is behind its parenthesis are groups of the
-- match, and together they are shorter than the line by three letters at least.
pub find_raw_string-length :
    (line : Text) (m : Found)
    → find_raw_string line ≡ some m
    → length (group_text m 1) + length (group_text m 3) + 3 ≤ length line
unfolding find_raw_string
find_raw_string-length line m h =
    let e : match_start raw_string line ≡ some m = ground arith in
    let (d, k, same) = match_start-IsSound raw_string line m e in of_place line m d k same
