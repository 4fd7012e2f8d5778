-- ===== src/Nolint/Lines.antt =====
-- What ParseNolintSuppressions changes: exactly one line, for exactly the category named.
use mathlib.Core.Option.{get_or}
use falcon_link.Prelude.{
  ℕ, suc, ◌≡◌, refl, sym, ap, subst, ◌∙◌, ◌⊎◌, inl, inr, Bool, true, false, ◌&&◌, ◌||◌, Option,
  none, some, List, [], ◌∷◌, ◌++◌, arith, all, codes, text_eq, starts_with, ends_with, Text,
  text_eq_iff, ◌==◌, if◌then◌else◌, length,
}
use falcon_link.Dict.{
  get, get-put, member, add, member-add, number_keys, text_keys, option_keys, option_same,
}
use falcon_link.Regex.{
  Found, Cursor, boundary, word, group, opt, one, plus, none_of, is_word, ◌▸◌, between, search_in,
  group_of,
}
use falcon_link.Regex.Sound.{Matches}
use falcon_link.Regex.Spans.{between-append}
use falcon_link.Regex.Reads.{
  search_in-IsSound, group-Reads, word_of-Reads, behind_word, Matches-Reads,
}
use falcon_link.Nolint.{
  Suppressions, suppress, inner, parse_category, parse_suppression, parse_nolint_suppressions,
  suppressed_line, nolint_pattern, is_error_suppressed_by_nolint,
}
use falcon_link.Nolint.Categories.{error_categories}

-- The key of the table covers the category: None covers all.
abbrev pub covers : Option Text → Text → Bool
covers none c = true
covers (some k) c = text_eq k c

suppress_lem :
    (key : Option Text) (line : ℕ) (s : Suppressions) (c : Text) (l : ℕ)
    → is_error_suppressed_by_nolint c l (suppress key line s)
      ≡ (is_error_suppressed_by_nolint c l s || (line == l && covers key c))
unfolding is_error_suppressed_by_nolint suppress option_same
suppress_lem none line s c l = ground (
  arith,
  get-put s.by_line none (some c) (add line (get_or (get s.by_line none) [])),
  get-put s.by_line none none (add line (get_or (get s.by_line none) [])),
  member-add line l (get_or (get s.by_line none) []),
)
suppress_lem (some k) line s c l = ground (
  arith,
  text_eq_iff k c,
  get-put s.by_line (some k) (some c) (add line (get_or (get s.by_line (some k)) [])),
  get-put s.by_line (some k) none (add line (get_or (get s.by_line (some k)) [])),
  member-add line l (get_or (get s.by_line (some k)) []),
)

-- The category text between parentheses, `none` where the comment has none, silences `c`.
abbrev pub silences : Option Text → Text → Bool
silences none c = true
silences (some g) c =
    text_eq g (codes "(*)")
    || (starts_with g (codes "(")
        && ends_with g (codes ")")
        && member (inner g) error_categories
        && text_eq (inner g) c)

parse_suppression_lem :
    (filename : Text) (linenum line : ℕ) (category : Option Text) (s : Suppressions) (c : Text)
    (l : ℕ)
    → is_error_suppressed_by_nolint c l (parse_suppression filename linenum line category s).0
      ≡ (is_error_suppressed_by_nolint c l s || (line == l && silences category c))
unfolding parse_suppression parse_category
parse_suppression_lem filename linenum line none s c l = suppress_lem none line s c l
parse_suppression_lem filename linenum line (some g) s c l =
    ground (arith, suppress_lem none line s c l, suppress_lem (some (inner g)) line s c l)

-- The line that a comment is about: the next one where it begins with NOLINTNEXTLINE.
abbrev pub line_of : Text → ℕ → ℕ
line_of hit linenum = if starts_with hit (codes "NOLINTNEXTLINE") then suc linenum else linenum

-- The text in parentheses sets no group but the second.
tail-groups :
    (c d : Cursor)
    → Matches (opt (group 2 (one b'(' ▸ plus (none_of ")") ▸ one b')'))) c d
    → (d.groups ≡ c.groups) ⊎ ((t : Text) × (d.groups ≡ (2, t) ∷ c.groups))
unfolding none_of
tail-groups c d (inl g) =
    let (t, e, _) = group-Reads 2 (one b'(' ▸ plus (none_of ")") ▸ one b')') c d refl g in
    inr (t, e)
tail-groups c d (inr e) = inl (ap (λ (u : Cursor). u.groups) (sym e))

behind_tail :
    (gs ds : List (ℕ × Text)) {hs : List (ℕ × Text)}
    → gs ≡ hs
    → (ds ≡ gs) ⊎ ((t : Text) × (ds ≡ (2, t) ∷ gs))
    → (ds ≡ hs) ⊎ ((t : Text) × (ds ≡ (2, t) ∷ hs))
behind_tail gs ds e (inl q) = inl (q ∙ e)
behind_tail gs ds e (inr (t, q)) = inr (t, q ∙ ap (◌∷◌ (2, t)) e)

next_group :
    (m : Found) (x : Text) (gs : List (ℕ × Text))
    → (gs ≡ (1, x) ∷ []) ⊎ ((t : Text) × (gs ≡ (2, t) ∷ (1, x) ∷ []))
    → m.groups ≡ gs
    → group_of m 1 ≡ some x
unfolding group_of
next_group m x gs (inl e) q = rw (q ∙ e, group_of) refl
next_group m x gs (inr (t, e)) q = rw (q ∙ e, group_of) refl

no_group :
    (m : Found) (gs : List (ℕ × Text))
    → (gs ≡ []) ⊎ ((t : Text) × (gs ≡ (2, t) ∷ []))
    → m.groups ≡ gs
    → group_of m 1 ≡ none
unfolding group_of
no_group m gs (inl e) q = rw (q ∙ e, group_of) refl
no_group m gs (inr (t, e)) q = rw (q ∙ e, group_of) refl

begins_next :
    (t : Text)
    → starts_with (codes "NOLINT" ++ (codes "NEXTLINE" ++ t)) (codes "NOLINTNEXTLINE") ≡ true
unfolding codes starts_with
begins_next t = refl

begins_here :
    (t rest : Text)
    → ((x : ℕ) (r : Text) → t ++ rest ≡ x ∷ r → is_word x ≡ false)
    → starts_with (codes "NOLINT" ++ t) (codes "NOLINTNEXTLINE") ≡ false
unfolding codes starts_with is_word
begins_here [] rest h = refl
begins_here (x ∷ t) rest h = let k = h x (t ++ rest) refl in ground arith

next_line_lem :
    (m : Found) (n : ℕ) (x u : Text)
    → group_of m 1 ≡ some x
    → m.hit ≡ codes "NOLINT" ++ (codes "NEXTLINE" ++ u)
    → suppressed_line m n ≡ line_of m.hit n
unfolding suppressed_line
next_line_lem m n x u g hit =
    let e = ap (λ (t : Text). starts_with t (codes "NOLINTNEXTLINE")) hit ∙ begins_next u in
    rw (suppressed_line, g, e) (omega arith)

this_line_lem :
    (m : Found) (n : ℕ) (u rest : Text)
    → group_of m 1 ≡ none
    → m.hit ≡ codes "NOLINT" ++ u
    → ((x : ℕ) (r : Text) → u ++ rest ≡ x ∷ r → is_word x ≡ false)
    → suppressed_line m n ≡ line_of m.hit n
unfolding suppressed_line
this_line_lem m n u rest g hit edge =
    let e =
      ap (λ (t : Text). starts_with t (codes "NOLINTNEXTLINE")) hit ∙ begins_here u rest edge in
    rw (suppressed_line, g, e) refl

suppressed_line_lem :
    (raw_line : Text) (linenum : ℕ) (m : Found)
    → search_in nolint_pattern raw_line ≡ some m
    → suppressed_line m linenum ≡ line_of m.hit linenum
unfolding nolint_pattern word codes all is_word
suppressed_line_lem raw_line linenum m h =
    let (c, d, whole, same, no_groups) = search_in-IsSound nolint_pattern raw_line m h in
    let (c0, (_, e0), (c1, nolint, (c2, next, (c3, bnd, tail)))) = whole in
    let (r0, g0) = word_of-Reads (codes "NOLINT") c0 c1 nolint in
    let (u, ru) =
      Matches-Reads (opt (group 2 (one b'(' ▸ plus (none_of ")") ▸ one b')'))) c3 d tail in
    let hit : m.hit ≡ between c d = ap (λ (f : Found). f.hit) (sym same) in
    let begin : c.rest ≡ codes "NOLINT" ++ c1.rest = ap (λ (x : Cursor). x.rest) e0 ∙ r0 in
    let groups : m.groups ≡ d.groups = ap (λ (f : Found). f.groups) (sym same) in
    let unset : c1.groups ≡ [] = g0 ∙ ap (λ (x : Cursor). x.groups) (sym e0) ∙ no_groups in
    let edge : c2.rest ≡ c3.rest = ap (λ (x : Cursor). x.rest) bnd.1 in
    let kept : c3.groups ≡ c2.groups = ap (λ (x : Cursor). x.groups) (sym bnd.1) in
    elim next [
      | inl (mi, w, cap) ↦
          let (x, q1, _) = group-Reads 1 (word "NEXTLINE") c1 c2 refl (mi, w, cap) in
          let set : c3.groups ≡ (1, x) ∷ [] = kept ∙ q1 ∙ ap (◌∷◌ (1, x)) unset in
          let (r1, _) = word_of-Reads (codes "NEXTLINE") c1 mi w in
          let reads : c1.rest ≡ codes "NEXTLINE" ++ (u ++ d.rest) =
            r1 ∙ ap (◌++◌ (codes "NEXTLINE")) (ap (λ (y : Cursor). y.rest) cap ∙ edge ∙ ru) in
          next_line_lem m linenum x u
            (next_group m x d.groups (behind_tail c3.groups d.groups set (tail-groups c3 d tail))
              groups)
            (hit
              ∙ between-append c d (codes "NOLINT" ++ (codes "NEXTLINE" ++ u))
                  (begin ∙ ap (◌++◌ (codes "NOLINT")) reads))
      | inr e ↦
          let clear : c3.groups ≡ [] = kept ∙ ap (λ (y : Cursor). y.groups) (sym e) ∙ unset in
          let reads : c1.rest ≡ u ++ d.rest = ap (λ (y : Cursor). y.rest) e ∙ edge ∙ ru in
          this_line_lem m linenum u d.rest
            (no_group m d.groups (behind_tail c3.groups d.groups clear (tail-groups c3 d tail))
              groups)
            (hit
              ∙ between-append c d (codes "NOLINT" ++ u) (begin ∙ ap (◌++◌ (codes "NOLINT")) reads))
            (λ x r q.
              behind_word b'N' (codes "OLINT") c0 c1 c3 x r refl nolint
                (subst (λ (y : Cursor). Matches boundary y c3) (sym e) bnd) (ru ∙ q))
    ]

-- After the NOLINT comment of a line is read, an error is suppressed exactly if it was before, or it is
-- on the comment's line, or on the next one where what the pattern found begins with NOLINTNEXTLINE, and
-- the comment covers its category: no category and `(*)` cover all, a category of the known list covers
-- itself, any other none.
pub parse_nolint_suppressions-is_error_suppressed :
    (filename raw_line : Text) (linenum : ℕ) (s : Suppressions) (m : Found)
    → search_in nolint_pattern raw_line ≡ some m
    → (c : Text) (l : ℕ)
    → is_error_suppressed_by_nolint c l (parse_nolint_suppressions filename raw_line linenum s).0
      ≡ (is_error_suppressed_by_nolint c l s
          || (line_of m.hit linenum == l && silences (group_of m 2) c))
unfolding parse_nolint_suppressions
parse_nolint_suppressions-is_error_suppressed filename raw_line linenum s m h c l =
    rw (h, parse_nolint_suppressions)
      (parse_suppression_lem filename linenum (suppressed_line m linenum) (group_of m 2) s c l
        ∙ ap
            (λ (n : ℕ).
              is_error_suppressed_by_nolint c l s || (n == l && silences (group_of m 2) c))
            (suppressed_line_lem raw_line linenum m h))

-- A line is never both reported and obeyed: where reading its NOLINT comment makes a report, the
-- tables stay as they were, and there is one report at most.
pub parse_nolint_suppressions_report :
    (filename raw_line : Text) (linenum : ℕ) (s : Suppressions)
    → ((parse_nolint_suppressions filename raw_line linenum s).1 ≡ [])
      ⊎ ((length (parse_nolint_suppressions filename raw_line linenum s).1 ≡ 1)
          × ((parse_nolint_suppressions filename raw_line linenum s).0 ≡ s))
unfolding parse_nolint_suppressions parse_suppression parse_category
parse_nolint_suppressions_report filename raw_line linenum s = ground arith
