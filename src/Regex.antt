-- ===== src/Regex.antt =====
-- The part of Python's `re` that the linter uses: patterns as data, and the backtracking matcher,
-- which takes the rest of the match as a continuation. The linter's patterns are written out as
-- values of `Regex` where they are used. Word letters and digits are the ASCII ones.
pub mod Sound
pub mod Spans
pub mod Complete
pub mod Remove
pub mod Least
pub mod Replace
pub mod Reads
use falcon_link.Prelude.{
  ℕ, zero, suc, ◌+◌, ◌-◌, ◌*◌, ◌/◌, ◌%◌, ◌^◌, ◌≤◌, ◌<◌, ◌≡◌, ◌∙◌, ◌≡⟨◌⟩◌, ◌∎, ◌≢◌, ◌↔◌, ◌⊎◌, Bool,
  true, false, not, ◌&&◌, ◌||◌, Option, none, some, List, [], ◌∷◌, ◌++◌, reverse, codes, is_space,
  Text, ltb, leb, ◌==◌, if◌then◌else◌, length, set, take,
}
use Prim.Native.String.{String}

pub data Regex : Type 0 where
  -- the empty pattern, one letter of a class, `ab`, `a|b`
  empty : Regex
  letter : (ℕ → Bool) → Regex
  seq alt : Regex → Regex → Regex
  -- `r*` and `r*?`
  star lazy : Regex → Regex
  -- the group with this number
  group : ℕ → Regex → Regex
  -- `^`, `$`, `\b`
  start finish boundary : Regex
  -- `(?=r)` and `(?!r)`
  ahead not_ahead : Regex → Regex

-- A place in a text: the letters before it, the nearest first, those behind it, and the groups
-- that are set, the newest first.
pub record Cursor : Type 0 where
  pub before : Text
  pub rest : Text
  pub groups : List (ℕ × Text)

unfoldable pub is_word : ℕ → Bool
is_word c =
    (leb b'a' c && leb c b'z')
    || (leb b'A' c && leb c b'Z')
    || (leb b'0' c && leb c b'9')
    || c == b'_'

unfoldable pub is_digit : ℕ → Bool
is_digit c = leb b'0' c && leb c b'9'

pub head_is_word : Text → Bool
unfolding is_word
head_is_word [] = false
head_is_word (c ∷ t) = is_word c

-- `\b`: a word letter on one side alone
pub at_boundary : Cursor → Bool
unfolding head_is_word
at_boundary c = if head_is_word c.before then not (head_is_word c.rest) else head_is_word c.rest

pub at_start : Cursor → Bool
at_start c = elim c.before [ [] ↦ true | _ ∷ _ ↦ false ]

-- `$`: at the end, or before a newline that is last
unfoldable pub at_finish_text : Text → Bool
at_finish_text [] = true
at_finish_text (c ∷ []) = c == b'\n'
at_finish_text (c ∷ d ∷ t) = false

unfoldable pub at_finish : Cursor → Bool
unfolding at_finish_text
at_finish c = at_finish_text c.rest

abbrev pub advance : Cursor → ℕ → Text → Cursor
advance c x r = record c { before = x ∷ c.before; rest = r }

-- The text between two places.
abbrev pub between : Cursor → Cursor → Text
between c d = take (length c.rest - length d.rest) c.rest

abbrev pub capture : ℕ → Cursor → Cursor → Cursor
capture i c d = record d { groups = (i, between c d) ∷ d.groups }

abbrev pub Next : Type 0
Next = Cursor → Option Cursor

pub step_letter : (ℕ → Bool) → Next → Cursor → Text → Option Cursor
step_letter p k c [] = none
step_letter p k c (x ∷ r) = elim (p x) [ true ↦ k (advance c x r) | false ↦ none ]

-- One more round must take at least one letter; the fuel is the letters that are left.
pub greedy : ℕ → (Next → Cursor → Option Cursor) → Next → Cursor → Option Cursor
greedy zero m k c = k c
greedy (suc n) m k c =
    elim (m
      (λ d. elim (ltb (length d.rest) (length c.rest)) [ true ↦ greedy n m k d | false ↦ none ])
      c) [ some d ↦ some d | none ↦ k c ]

pub reluctant : ℕ → (Next → Cursor → Option Cursor) → Next → Cursor → Option Cursor
reluctant zero m k c = k c
reluctant (suc n) m k c = elim (k c) [
  | some d ↦ some d
  | none ↦
      m
        (λ d. elim (ltb (length d.rest) (length c.rest)) [
          | true ↦ reluctant n m k d
          | false ↦ none
        ])
        c
]

-- The first way to match the pattern at a place after which `k` succeeds.
unfoldable pub run : Regex → Next → Cursor → Option Cursor
unfolding step_letter greedy reluctant at_boundary at_start at_finish
run empty k c = k c
run (letter p) k c = step_letter p k c c.rest
run (seq a b) k c = run a (run b k) c
run (alt a b) k c = elim (run a k c) [ some d ↦ some d | none ↦ run b k c ]
run (star r) k c = greedy (length c.rest) (run r) k c
run (lazy r) k c = reluctant (length c.rest) (run r) k c
run (group i r) k c = run r (λ d. k (capture i c d)) c
run start k c = elim (at_start c) [ true ↦ k c | false ↦ none ]
run finish k c = elim (at_finish c) [ true ↦ k c | false ↦ none ]
run boundary k c = elim (at_boundary c) [ true ↦ k c | false ↦ none ]
run (ahead r) k c = elim (run r some c) [ some _ ↦ k c | none ↦ none ]
run (not_ahead r) k c = elim (run r some c) [ some _ ↦ none | none ↦ k c ]

-- A match object: the text before the match, the match, the text behind it, and the groups.
pub record Found : Type 0 where
  pub before : Text
  pub hit : Text
  pub after : Text
  pub groups : List (ℕ × Text)

abbrev pub found : Cursor → Cursor → Found
found c d = record {
  before = reverse c.before;
  hit = between c d;
  after = d.rest;
  groups = d.groups;
}

abbrev pub at : Text → Text → Cursor
at b s = record { before = b; rest = s; groups = [] }

-- pattern.match(s)
unfoldable pub match_start : Regex → Text → Option Found
unfolding run
match_start r s = elim (run r some (at [] s)) [ some d ↦ some (found (at [] s) d) | none ↦ none ]

pub search_go : Regex → Text → Text → Option Found
search_go r b [] = elim (run r some (at b [])) [ some d ↦ some (found (at b []) d) | none ↦ none ]
search_go r b (x ∷ s) = elim (run r some (at b (x ∷ s))) [
  | some d ↦ some (found (at b (x ∷ s)) d)
  | none ↦ search_go r (x ∷ b) s
]

-- pattern.search(s)
unfoldable pub search_in : Regex → Text → Option Found
unfolding search_go run
search_in r s = search_go r [] s

lookup_group : List (ℕ × Text) → ℕ → Option Text
lookup_group [] i = none
lookup_group ((j, t) ∷ gs) i = if j == i then some t else lookup_group gs i

-- m.group(i), for i ≥ 1; `none` is None
unfoldable pub group_of : Found → ℕ → Option Text
unfolding lookup_group
group_of m i = lookup_group m.groups i

-- pattern.sub('', s) for a pattern that never matches the empty text; the fuel is the letters left.
pub remove_go : ℕ → Regex → Text → Text → Text
remove_go zero r b s = s
remove_go (suc n) r b [] = []
remove_go (suc n) r b (x ∷ s) = elim (run r some (at b (x ∷ s))) [
  | some d ↦ remove_go n r d.before d.rest
  | none ↦ x ∷ remove_go n r (x ∷ b) s
]

unfoldable pub remove_all : Regex → Text → Text
unfolding remove_go run
remove_all r s = remove_go (length s) r [] s

-- `c in text`, for one letter
unfoldable pub contains : ℕ → Text → Bool
contains c [] = false
contains c (d ∷ t) = d == c || contains c t

-- Shorthands of the pattern language: a word, `[...]`, `[^...]`, `.`, `\s`, `\S`, `\w`, `\W`,
-- `\d`, `r+`, `r?`.
unfoldable pub word_of : Text → Regex
word_of [] = empty
word_of (c ∷ t) = seq (letter (λ d. d == c)) (word_of t)

unfoldable pub word : String → Regex
unfolding codes word_of
word s = word_of (codes s)

abbrev pub one : ℕ → Regex
one c = letter (λ d. d == c)

unfoldable pub one_of : String → Regex
unfolding codes contains
one_of s = letter (λ c. contains c (codes s))

unfoldable pub none_of : String → Regex
unfolding codes contains
none_of s = letter (λ c. not (contains c (codes s)))

abbrev pub dot : Regex
dot = letter (λ c. not (c == b'\n'))

abbrev pub space : Regex
space = letter is_space

abbrev pub non_space : Regex
non_space = letter (λ c. not (is_space c))

abbrev pub word_letter : Regex
word_letter = letter is_word

abbrev pub digit : Regex
digit = letter is_digit

abbrev pub plus : Regex → Regex
plus r = seq r (star r)

abbrev pub opt : Regex → Regex
opt r = alt r empty

infixr 66 ◌▸◌
abbrev pub ◌▸◌ : Regex → Regex → Regex
a ▸ b = seq a b

infixr 60 ◌∣◌
abbrev pub ◌∣◌ : Regex → Regex → Regex
a ∣ b = alt a b
