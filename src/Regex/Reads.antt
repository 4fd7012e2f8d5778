-- ===== src/Regex/Reads.antt =====
-- The text that a match reads, that of a group, and the letter behind a word.
use falcon_link.Prelude.{
  ℕ, ◌≡◌, refl, sym, ap, ap₂, subst, ◌∙◌, inl, inr, true, false, not, none, some, List, [], ◌∷◌,
  ◌++◌, append_assoc, arith, all, Text, ◌==◌, if◌then◌else◌, ==_iff, Option-cases, and_true,
  none-ne-some,
}
use falcon_link.Regex.{
  Regex, empty, letter, seq, alt, star, lazy, group, start, finish, boundary, ahead, not_ahead,
  Cursor, Found, run, search_go, search_in, found, at, word_of, is_word, head_is_word, at_boundary,
}
use falcon_link.Regex.Sound.{Rounds, stop, round, Matches, run-IsSound}
use falcon_link.Regex.Spans.{groupless, Matches-groups, between-append}

-- What is read between two places.
abbrev pub Reads : Cursor → Cursor → Type 0
Reads c d = (t : Text) × (c.rest ≡ t ++ d.rest)

Reads-trans : (c m d : Cursor) → Reads c m → Reads m d → Reads c d
Reads-trans c m d (t, e) (u, f) = (t ++ u, e ∙ ap (◌++◌ t) f ∙ sym (append_assoc t u d.rest))

nothing : (c d : Cursor) → c ≡ d → Reads c d
nothing c d e = ([], ap (λ (u : Cursor). u.rest) e)

Rounds-Reads :
    (R : Cursor → Cursor → Type 0)
    → ((c d : Cursor) → R c d → Reads c d)
    → {c d : Cursor} → Rounds R c d
    → Reads c d
Rounds-Reads R h stop = ([], refl)
Rounds-Reads R h (round {c} {m} {d} r rs) = Reads-trans c m d (h c m r) (Rounds-Reads R h rs)

pub Matches-Reads : (r : Regex) (c d : Cursor) → Matches r c d → Reads c d
Matches-Reads empty c d h = nothing c d h
Matches-Reads (letter p) c d (x, t, e, _, q) = (x ∷ [], e ∙ ap (λ (u : Cursor). x ∷ u.rest) q)
Matches-Reads (seq a b) c d (m, h, k) =
    Reads-trans c m d (Matches-Reads a c m h) (Matches-Reads b m d k)
Matches-Reads (alt a b) c d (inl h) = Matches-Reads a c d h
Matches-Reads (alt a b) c d (inr h) = Matches-Reads b c d h
Matches-Reads (star r) c d h = Rounds-Reads (Matches r) (Matches-Reads r) h
Matches-Reads (lazy r) c d h = Rounds-Reads (Matches r) (Matches-Reads r) h
Matches-Reads (group i r) c d (m, h, q) =
    let (t, e) = Matches-Reads r c m h in (t, e ∙ ap (λ (u : Cursor). t ++ u.rest) q)
Matches-Reads start c d h = nothing c d h.1
Matches-Reads finish c d h = nothing c d h.1
Matches-Reads boundary c d h = nothing c d h.1
Matches-Reads (ahead r) c d h = nothing c d h
Matches-Reads (not_ahead r) c d h = nothing c d h

-- A group with no group in it is set to the text that it reads.
pub group-Reads :
    (i : ℕ) (r : Regex) (c d : Cursor)
    → groupless r ≡ true
    → Matches (group i r) c d
    → (t : Text) × (d.groups ≡ (i, t) ∷ c.groups) × (c.rest ≡ t ++ d.rest)
group-Reads i r c d g (m, h, q) =
    let (t, e) = Matches-Reads r c m h in
    (
      t,
      sym (ap (λ (u : Cursor). u.groups) q)
          ∙ ap₂ (λ (u : Text) (gs : List (ℕ × Text)). (i, u) ∷ gs) (between-append c m t e)
              (Matches-groups r g c m h),
      e ∙ ap (λ (u : Cursor). t ++ u.rest) q,
    )

word_of-before :
    (a : ℕ) (t : Text)
    → all is_word (a ∷ t) ≡ true
    → (c d : Cursor) → Matches (word_of (a ∷ t)) c d
    → head_is_word d.before ≡ true
unfolding all word_of head_is_word
word_of-before a [] h c d (m, (x, r, e, p, q), f) =
    let same : x ≡ a = (==_iff x a).0 p in
    ap (λ (u : Cursor). head_is_word u.before) (sym (q ∙ f))
    ∙ ap is_word same
    ∙ (and_true (is_word a) true h).0
word_of-before a (b ∷ t) h c d (m, _, k) =
    word_of-before b t (and_true (is_word a) (all is_word (b ∷ t)) h).1 m d k

behind_boundary :
    (b r : Text)
    → head_is_word b ≡ true
    → (if head_is_word b then not (head_is_word r) else head_is_word r) ≡ true
    → head_is_word r ≡ false
behind_boundary b r h k = ground arith

-- Behind a word and its end there is no word letter.
pub behind_word :
    (a : ℕ) (t : Text) (c m d : Cursor) (x : ℕ) (rest : Text)
    → all is_word (a ∷ t) ≡ true
    → Matches (word_of (a ∷ t)) c m
    → Matches boundary m d
    → d.rest ≡ x ∷ rest
    → is_word x ≡ false
unfolding at_boundary head_is_word
behind_word a t c m d x rest h w (k, e) f =
    let k' = behind_boundary m.before m.rest (word_of-before a t h c m w) k in
    ap head_is_word (sym f ∙ ap (λ (u : Cursor). u.rest) (sym e)) ∙ k'

pub word_end :
    (a : ℕ) (t : Text) (c m d : Cursor) (x : ℕ) (rest : Text)
    → all is_word (a ∷ t) ≡ true
    → Matches (word_of (a ∷ t)) c m
    → Matches boundary m d
    → d.rest ≡ x ∷ rest
    → x == b'_' ≡ false
unfolding is_word
word_end a t c m d x rest h w k f = let g = behind_word a t c m d x rest h w k f in ground arith

-- A word reads its letters, and sets no group.
pub word_of-Reads :
    (t : Text) (c d : Cursor)
    → Matches (word_of t) c d
    → (c.rest ≡ t ++ d.rest) × (d.groups ≡ c.groups)
unfolding word_of
word_of-Reads [] c d h = rw h (refl, refl)
word_of-Reads (a ∷ t) c d (m, (x, r, e, p, q), k) =
    let (reads, groups) = word_of-Reads t m d k in
    let same : x ≡ a = (==_iff x a).0 p in
    (
      e ∙ ap₂ (λ (y : ℕ) (u : Text). y ∷ u) same (ap (λ (u : Cursor). u.rest) q ∙ reads),
      groups ∙ sym (ap (λ (u : Cursor). u.groups) q),
    )

-- What a search finds is a match at a place where no group is set.
abbrev FoundAt : Regex → Found → Type 0
FoundAt r m = (c d : Cursor) × Matches r c d × (found c d ≡ m) × (c.groups ≡ [])

run-FoundAt :
    (r : Regex) (b s : Text) (d : Cursor) (m : Found)
    → run r some (at b s) ≡ some d
    → some (found (at b s) d) ≡ some m
    → FoundAt r m
run-FoundAt r b s d m on here =
    let (e, k, q) = run-IsSound r some (at b s) d on in
    let same : e ≡ d = cc in (at b s, d, subst (Matches r (at b s)) same k, cc, refl)

search_go-IsSound : (r : Regex) (b s : Text) (m : Found) → search_go r b s ≡ some m → FoundAt r m
unfolding search_go
search_go-IsSound r b [] m h = elim (Option-cases (run r some (at b []))) [
  | inl off ↦ let e : none ≡ some m = (rw (off, search_go) at h) in absurd (none-ne-some e)
  | inr (d, on) ↦ run-FoundAt r b [] d m on (rw (on, search_go) at h)
]
search_go-IsSound r b (x ∷ s) m h = elim (Option-cases (run r some (at b (x ∷ s)))) [
  | inl off ↦ search_go-IsSound r (x ∷ b) s m (rw (off, search_go) at h)
  | inr (d, on) ↦ run-FoundAt r b (x ∷ s) d m on (rw (on, search_go) at h)
]

pub search_in-IsSound :
    (r : Regex) (s : Text) (m : Found)
    → search_in r s ≡ some m
    → (c d : Cursor) × Matches r c d × (found c d ≡ m) × (c.groups ≡ [])
unfolding search_in
search_in-IsSound r s m h = search_go-IsSound r [] s m h
