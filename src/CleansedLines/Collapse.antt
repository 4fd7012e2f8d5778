-- ===== src/CleansedLines/Collapse.antt =====
-- _CollapseStrings returns on every line, and never makes it longer.
use falcon_link.Prelude.{
  ℕ, zero, suc, ◌+◌, ◌≤◌, ◌<◌, ◌≡◌, refl, sym, ◌∙◌, inl, inr, true, Option, some, [], ◌∷◌, ◌++◌,
  arith, all, codes, text_eq, find, replace, split, Text, length-delete, find-lt, Bool-cases,
  Option-cases, none-ne-some, length, drop, length-append, length-drop,
}
use falcon_link.Regex.{Found, match_start, search_in, remove_all}
use falcon_link.Regex.Remove.{length-remove_all}
use falcon_link.RawStrings.{group_text}
use falcon_link.CleansedLines.{
  include_pattern, line_escapes, first_quote, number_end, collapse_quotes, collapse_strings,
}
use falcon_link.CleansedLines.Quotes.{
  no_newline, QuoteAt, quote_at, SplitAt, split_at, separators-matches, number_end-nil,
}

-- The loop returns, and its result is no longer than what it had.
record Collapsed (n : ℕ) (r : Option Text) : Type 0 where
  after : Text
  returns : r ≡ some after
  shorter : length after ≤ n

Collapsed-some : (n : ℕ) (t : Text) → length t ≤ n → Collapsed n (some t)
Collapsed-some n t h = record { after = t; returns = refl; shorter = h }

Collapsed-le : (n k : ℕ) (r : Option Text) → n ≤ k → Collapsed n r → Collapsed k r
Collapsed-le n k r le c = record {
  after = c.after;
  returns = c.returns;
  shorter = omega (arith, c.shorter);
}

one_quote : length (codes "'") ≡ 1
unfolding codes
one_quote = refl

two_double : length (codes "\"\"") ≡ 2
unfolding codes
two_double = refl

two_single : length (codes "''") ≡ 2
unfolding codes
two_single = refl

-- A line with a quote in it.
module _ (fuel : ℕ) (collapsed elided : Text) (m : Found) (q : QuoteAt elided m)
    (rec : (done rest : Text)
      → length rest < fuel
      → Collapsed (length done + length rest) (collapse_quotes fuel done rest))
    (enough : length elided < suc fuel) where
  -- The next round, with two quotes for a quoted text.
  quoted :
      (quotes : Text) (n : ℕ)
      → length quotes ≡ 2
      → n < length (group_text m 3)
      → Collapsed (length collapsed + length elided) (
          collapse_quotes fuel
            (collapsed ++ (group_text m 1 ++ quotes))
            (drop (n + 1) (group_text m 3)))
  quoted quotes n e inside =
      let rest = drop (n + 1) (group_text m 3) in
      let facts : length (collapsed ++ (group_text m 1 ++ quotes)) + length rest
          ≤ length collapsed + length elided =
        omega (
          arith,
          q.shorter,
          length-drop {0} (n + 1) (group_text m 3),
          length-append {0} (group_text m 1) quotes,
          length-append {0} collapsed (group_text m 1 ++ quotes),
        ) in
      Collapsed-le (length (collapsed ++ (group_text m 1 ++ quotes)) + length rest)
        (length collapsed + length elided) _ facts
        (rec (collapsed ++ (group_text m 1 ++ quotes)) rest
          (omega (arith, q.shorter, length-drop {0} (n + 1) (group_text m 3))))

  -- The next round behind a digit separator.
  separated :
      (l : Found)
      → 0 < length (group_text m 1)
      → SplitAt (codes "'" ++ group_text m 3) l
      → Collapsed (length collapsed + length elided) (
          collapse_quotes fuel
            (collapsed ++ (group_text m 1 ++ replace (group_text l 1) (codes "'") []))
            (group_text l 2))
  separated l pos s =
      let digits = replace (group_text l 1) (codes "'") [] in
      let tail = length-append {0} (codes "'") (group_text m 3) in
      Collapsed-le (length (collapsed ++ (group_text m 1 ++ digits)) + length (group_text l 2))
        (length collapsed + length elided) _
        (omega (
          arith,
          q.shorter,
          s.shorter,
          tail,
          one_quote,
          length-delete (group_text l 1) (codes "'"),
          length-append {0} (group_text m 1) digits,
          length-append {0} collapsed (group_text m 1 ++ digits),
        ))
        (rec (collapsed ++ (group_text m 1 ++ digits)) (group_text l 2)
          (omega (arith, q.shorter, s.shorter, tail, one_quote)))

some-nonempty : (head : Text) (m : Found) → search_in number_end head ≡ some m → 0 < length head
some-nonempty [] m h = absurd (none-ne-some (sym number_end-nil ∙ h))
some-nonempty (c ∷ head) m h = omega arith

find_double : (t : Text) (n : ℕ) → find t (codes "\"") ≡ some n → n < length t
unfolding codes
find_double t n h = omega (arith, find-lt t [] b'"' n h)

find_single : (t : Text) (n : ℕ) → find t (codes "'") ≡ some n → n < length t
unfolding codes
find_single t n h = omega (arith, find-lt t [] b'\'' n h)

quote_is_no_newline : (t : Text) → all no_newline t ≡ true → all no_newline (codes "'" ++ t) ≡ true
unfolding codes all
quote_is_no_newline t h = h

collapse_quotes-Collapsed :
    (fuel : ℕ) (collapsed elided : Text)
    → length elided < fuel
    → Collapsed (length collapsed + length elided) (collapse_quotes fuel collapsed elided)
unfolding collapse_quotes
collapse_quotes-Collapsed zero collapsed elided h = absurd (omega arith)
collapse_quotes-Collapsed (suc fuel) collapsed elided h =
    elim (Option-cases (match_start first_quote elided)) [
      | inl off ↦ rw (off, collapse_quotes) whole
      | inr (m, on) ↦
          let q = quote_at elided m on in
          let rec = λ (done rest : Text) (s : length rest < fuel).
            collapse_quotes-Collapsed fuel done rest s in
          elim (Bool-cases (text_eq (group_text m 2) (codes "\""))) [
            | inl double ↦ elim (Option-cases (find (group_text m 3) (codes "\""))) [
              | inl open_end ↦ rw (on, double, open_end, collapse_quotes) whole
              | inr (n, close) ↦
                  rw (on, double, close, collapse_quotes)
                    (quoted fuel collapsed elided m q rec h (codes "\"\"") n two_double
                      (find_double (group_text m 3) n close))
            ]
            | inr single ↦ elim (Option-cases (search_in number_end (group_text m 1))) [
              | inl no_number ↦ elim (Option-cases (find (group_text m 3) (codes "'"))) [
                | inl open_end ↦ rw (on, single, no_number, open_end, collapse_quotes) whole
                | inr (n, close) ↦
                    rw (on, single, no_number, close, collapse_quotes)
                      (quoted fuel collapsed elided m q rec h (codes "''") n two_single
                        (find_single (group_text m 3) n close))
              ]
              | inr (f, number) ↦
                  let (l, split) =
                    separators-matches (codes "'" ++ group_text m 3)
                      (quote_is_no_newline (group_text m 3) q.one_line) in
                  rw (on, single, number, split, collapse_quotes)
                    (separated fuel collapsed elided m q rec h l
                      (some-nonempty (group_text m 1) f number)
                      (split_at (codes "'" ++ group_text m 3) l split))
            ]
          ]
    ]
  where
    whole : Collapsed (length collapsed + length elided) (some (collapsed ++ elided))
    whole =
        Collapsed-some _ (collapsed ++ elided) (omega (arith, length-append {0} collapsed elided))

-- Collapsing the strings of a line returns, whatever the line is, and its result is no longer than the
-- line.
pub collapse_strings-length :
    (line : Text) → (out : Text) × (collapse_strings line ≡ some out) × (length out ≤ length line)
unfolding collapse_strings
collapse_strings-length line = elim (Option-cases (match_start include_pattern line)) [
  | inr (m, on) ↦ (line, rw (on, collapse_strings), omega arith)
  | inl off ↦
      let clean = remove_all line_escapes line in
      let c = collapse_quotes-Collapsed (length clean + 1) [] clean (omega arith) in
      (
        c.after,
        rw (off, collapse_strings) c.returns,
        omega (arith, c.shorter, length-remove_all line_escapes line),
      )
]
