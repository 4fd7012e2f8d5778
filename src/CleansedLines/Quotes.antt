-- ===== src/CleansedLines/Quotes.antt =====
-- What the patterns of _CollapseStrings match: the first quote, and the digits behind a separator.
use falcon_link.Prelude.{
  ℕ, ◌+◌, ◌≤◌, ◌≡◌, refl, sym, ap, Bool, true, not, none, some, [], ◌∷◌, ◌++◌, append-nil, arith,
  all, codes, Text, ◌==◌, length,
}
use falcon_link.Regex.{
  letter, star, finish, group, one, dot, seq, Cursor, Found, match_start, search_in, group_of, at,
  run, capture, found, opt, one_of, none_of, contains,
}
use falcon_link.Regex.Sound.{Matches, match_start-IsSound}
use falcon_link.Regex.Spans.{letter-length, group_letters, group_facts}
use falcon_link.Regex.Complete.{
  Succeeds, finish-Succeeds, star-letters, star-here, skip, skip-rest, skip-Rounds,
}
use falcon_link.RawStrings.{group_text}
use falcon_link.CleansedLines.{first_quote, number_end, digit_separators, is_literal}

abbrev pub no_newline : ℕ → Bool
no_newline c = not (c == b'\n')

three_groups :
    (m : Found) {a b x : Text}
    → m.groups ≡ (3, x) ∷ (2, b) ∷ (1, a) ∷ []
    → (group_text m 1 ≡ a) × (group_text m 3 ≡ x)
unfolding group_of
three_groups m e = (rw (e, group_of), rw (e, group_of))

two_groups :
    (m : Found) {a b : Text}
    → m.groups ≡ (2, b) ∷ (1, a) ∷ []
    → (group_text m 1 ≡ a) × (group_text m 2 ≡ b)
unfolding group_of
two_groups m e = (rw (e, group_of), rw (e, group_of))

-- The first quote: what is before it and behind it, with no newline behind it.
pub record QuoteAt (elided : Text) (m : Found) : Type 0 where
  pub shorter : length (group_text m 1) + length (group_text m 3) + 1 ≤ length elided
  pub one_line : all no_newline (group_text m 3) ≡ true

first_quote_shape :
    (c d : Cursor)
    → Matches first_quote c d
    → (a : Text) × (b : Text) × (x : Text) × (d.groups ≡ (3, x) ∷ (2, b) ∷ (1, a) ∷ c.groups)
      × (length a + length x + 1 ≤ length c.rest)
      × (all no_newline x ≡ true)
unfolding first_quote one_of none_of
first_quote_shape c d (c1, s, (c2, g1, (c3, (m, q, e), (c4, g3, fin)))) =
    let (a, ga, la) = group_facts 1 (star (none_of "'\"")) c1 c2 refl g1 in
    let (lq, gq) = letter-length (λ y. contains y (codes "'\"")) c2 m q in
    let (b, gb, lb) = group_facts 2 (one_of "'\"") c2 c3 refl (m, q, e) in
    let (x, gx, lx, no_line) = group_letters 3 no_newline c3 c4 g3 in
    let e0 = s.1 in
    let e2 = fin.1 in
    let le = ap (λ (u : Cursor). length u.rest) e in
    let l0 = ap (λ (u : Cursor). length u.rest) e0 in
    (a, b, x, cc, omega (arith, la, lq, lx, le, l0), no_line)

pub quote_at : (line : Text) (m : Found) → match_start first_quote line ≡ some m → QuoteAt line m
quote_at line m h =
    let (d, k, same) = match_start-IsSound first_quote line m h in
    of_place d same (first_quote_shape (at [] line) d k)
  where
    of_place :
        (d : Cursor)
        → found (at [] line) d ≡ m
        → ((a : Text) × (b : Text) × (x : Text) × (d.groups ≡ (3, x) ∷ (2, b) ∷ (1, a) ∷ [])
            × (length a + length x + 1 ≤ length line)
            × (all no_newline x ≡ true))
        → QuoteAt line m
    of_place d same (a, b, x, g, le, no_line) =
        let e : m.groups ≡ (3, x) ∷ (2, b) ∷ (1, a) ∷ [] = cc in
        let (ga, gx) = three_groups m {a = a} {b = b} {x = x} e in
        record {
          shorter = omega (arith, le, ap (length {0}) ga, ap (length {0}) gx);
          one_line = rw gx no_line;
        }

-- The digits behind a digit separator, and the rest of the line.
pub record SplitAt (text : Text) (m : Found) : Type 0 where
  pub shorter : length (group_text m 1) + length (group_text m 2) ≤ length text

separators_shape :
    (c d : Cursor)
    → Matches digit_separators c d
    → (a : Text) × (b : Text) × (d.groups ≡ (2, b) ∷ (1, a) ∷ c.groups)
      × (length a + length b ≤ length c.rest)
unfolding digit_separators
separators_shape c d (c1, s, (c2, g1, (c3, g2, fin))) =
    let (a, ga, la) =
      group_facts 1 (star (seq (opt (one b'\'')) (letter is_literal))) c1 c2 refl g1 in
    let (b, gb, lb) = group_facts 2 (star dot) c2 c3 refl g2 in
    let e0 = s.1 in
    let e2 = fin.1 in (a, b, cc, omega (arith, la, lb, ap (λ (u : Cursor). length u.rest) e0))

pub split_at :
    (text : Text) (m : Found) → match_start digit_separators text ≡ some m → SplitAt text m
split_at text m h =
    let (d, k, same) = match_start-IsSound digit_separators text m h in
    of_place d same (separators_shape (at [] text) d k)
  where
    of_place :
        (d : Cursor)
        → found (at [] text) d ≡ m
        → ((a : Text) × (b : Text) × (d.groups ≡ (2, b) ∷ (1, a) ∷ [])
            × (length a + length b ≤ length text))
        → SplitAt text m
    of_place d same (a, b, g, le) =
        let e : m.groups ≡ (2, b) ∷ (1, a) ∷ [] = cc in
        let (ga, gb) = two_groups m {a = a} {b = b} e in
        record { shorter = omega (arith, le, ap (length {0}) ga, ap (length {0}) gb) }

separators-run :
    (text : Text) → all no_newline text ≡ true → Succeeds (run digit_separators some (at [] text))
unfolding run digit_separators
separators-run text h =
    let c = at [] text in
    let c1 = capture 1 c c in
    let e : text ≡ text ++ [] = sym (append-nil text) in
    let after = skip c1 text [] in
    star-here (seq (opt (one b'\'')) (letter is_literal))
      (λ d. run (seq (group 2 (star dot)) finish) some (capture 1 c d)) c
      (star-letters no_newline (λ d. run finish some (capture 2 c1 d))
        (skip-Rounds no_newline c1 text [] e h)
        (finish-Succeeds (capture 2 c1 after) (skip-rest c1 text [] e)))

pub separators-matches :
    (text : Text)
    → all no_newline text ≡ true
    → (m : Found) × (match_start digit_separators text ≡ some m)
unfolding match_start
separators-matches text h =
    let (d, q) = separators-run text h in (found (at [] text) d, rw (q, match_start))

-- No number ends in the empty text.
pub number_end-nil : search_in number_end [] ≡ none
unfolding search_in number_end
number_end-nil = refl
