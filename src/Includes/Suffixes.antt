-- ===== src/Includes/Suffixes.antt =====
-- What _DropCommonSuffixes takes off a filename.
use falcon_link.Prelude.{
  ℕ, ◌-◌, ◌<◌, ◌≡◌, refl, sym, ap, subst, ◌∙◌, ◌⊎◌, inl, inr, Bool, true, false, ◌||◌, List, [],
  ◌∷◌, ◌++◌, map, append_assoc, arith, any, codes, text_eq, ends_with, Text, text_eq_iff,
  text_eq_refl, ltb, ◌==◌, Bool-cases, length, get_or, take, length-append, take-length,
}
use falcon_link.Prelude.Ends.{ends_with-some, ends_with-append, get_or-length, last_letter}
use falcon_link.Dict.{member, member-append, text_keys}
use falcon_link.Extensions.{Extensions, get_header_extensions, get_non_header_extensions}
use falcon_link.Includes.{
  path_splitext, has_suffix, drop_suffix, drop_common_suffixes, common_suffixes, suffixes_of,
  drop_underscores, test_suffixes,
}

-- A suffix stands behind a dash or an underscore.
abbrev pub is_separator : ℕ → Bool
is_separator c = c == b'-' || c == b'_'

size_of :
    (stem suffix : Text) (sep : ℕ) → length (stem ++ sep ∷ suffix) - length suffix - 1 ≡ length stem
size_of stem suffix sep = omega (arith, length-append {0} stem (sep ∷ suffix))

has_suffix-Parted :
    (stem suffix : Text) (sep : ℕ)
    → is_separator sep ≡ true
    → has_suffix (stem ++ sep ∷ suffix) suffix ≡ true
unfolding has_suffix
has_suffix-Parted stem suffix sep h =
    let end : ends_with (stem ++ sep ∷ suffix) suffix ≡ true =
      ap (λ (t : Text). ends_with t suffix) (sym (append_assoc stem (sep ∷ []) suffix))
      ∙ ends_with-append (stem ++ sep ∷ []) suffix in
    let longer : ltb (length suffix) (length (stem ++ sep ∷ suffix)) ≡ true =
      ground (arith, length-append {0} stem (sep ∷ suffix)) in
    rw (has_suffix, end, longer, size_of stem suffix sep, get_or-length stem suffix sep 0) h

-- The parts of a filename with the suffix.
abbrev Parted : Text → Text → Type 0
Parted filename suffix =
    (stem : Text) × (sep : ℕ) × (is_separator sep ≡ true) × (filename ≡ stem ++ sep ∷ suffix)

Parted-has_suffix :
    (filename suffix : Text) → has_suffix filename suffix ≡ true → Parted filename suffix
unfolding has_suffix
Parted-has_suffix filename suffix h =
    let end : ends_with filename suffix ≡ true = ground arith in
    let longer : length suffix < length filename = ground arith in
    let (r, e) = ends_with-some filename suffix end in
    let size = ap (length {0}) e ∙ length-append {0} r suffix in
    let (stem, sep, f) = last_letter r (omega (arith, size, longer)) in
    let whole : filename ≡ stem ++ sep ∷ suffix =
      e ∙ ap (λ (t : Text). t ++ suffix) f ∙ append_assoc stem (sep ∷ []) suffix in
    let before : is_separator (get_or filename (length filename - length suffix - 1) 0) ≡ true =
      ground arith in
    (
      stem,
      sep,
      rw (whole, size_of stem suffix sep, get_or-length stem suffix sep 0) at before,
      whole,
    )

-- A word, a dot and an extension.
abbrev pub is_word_and_extension : List Text → List Text → Text → Bool
is_word_and_extension words exts suffix =
    any (λ w. any (λ e. text_eq (w ++ (codes "." ++ e)) suffix) exts) words

-- The common suffixes: those of tests, with an extension of source files, and those of headers.
abbrev pub is_common_suffix : Extensions → Text → Bool
is_common_suffix g suffix =
    is_word_and_extension (codes "test" ∷ codes "regtest" ∷ codes "unittest" ∷ [])
      (get_non_header_extensions g) suffix
    || is_word_and_extension (codes "inl" ∷ codes "imp" ∷ codes "internal" ∷ [])
        (get_header_extensions g) suffix

member-word :
    (suffix w : Text) (exts : List Text)
    → member suffix (map (λ ext. w ++ (codes "." ++ ext)) exts)
      ≡ any (λ e. text_eq (w ++ (codes "." ++ e)) suffix) exts
unfolding member any
member-word suffix w [] = refl
member-word suffix w (e ∷ exts) =
    ap (λ (b : Bool). text_eq (w ++ (codes "." ++ e)) suffix || b) (member-word suffix w exts)

member-suffixes_of :
    (suffix : Text) (words exts : List Text)
    → member suffix (suffixes_of words exts) ≡ is_word_and_extension words exts suffix
unfolding suffixes_of any member
member-suffixes_of suffix [] exts = refl
member-suffixes_of suffix (w ∷ words) exts =
    member-append suffix (map (λ ext. w ++ (codes "." ++ ext)) exts) (suffixes_of words exts)
    ∙ ap (λ (b : Bool). b || member suffix (suffixes_of words exts)) (member-word suffix w exts)
    ∙ ap (λ (b : Bool). any (λ e. text_eq (w ++ (codes "." ++ e)) suffix) exts || b)
        (member-suffixes_of suffix words exts)

test_words :
    map drop_underscores test_suffixes ≡ codes "test" ∷ codes "regtest" ∷ codes "unittest" ∷ []
unfolding drop_underscores codes
test_words = refl

member-common_suffixes :
    (g : Extensions) (suffix : Text) → member suffix (common_suffixes g) ≡ is_common_suffix g suffix
unfolding common_suffixes
member-common_suffixes g suffix =
    let tests = suffixes_of (map drop_underscores test_suffixes) (get_non_header_extensions g) in
    let headers =
      suffixes_of (codes "inl" ∷ codes "imp" ∷ codes "internal" ∷ []) (get_header_extensions g) in
    member-append suffix tests headers
    ∙ ap (λ (b : Bool). b || member suffix headers)
        (ap (λ (ws : List Text). member suffix (suffixes_of ws (get_non_header_extensions g)))
            test_words
          ∙ member-suffixes_of suffix (codes "test" ∷ codes "regtest" ∷ codes "unittest" ∷ [])
              (get_non_header_extensions g))
    ∙ ap
        (λ (b : Bool).
          is_word_and_extension (codes "test" ∷ codes "regtest" ∷ codes "unittest" ∷ [])
            (get_non_header_extensions g) suffix
          || b)
        (member-suffixes_of suffix (codes "inl" ∷ codes "imp" ∷ codes "internal" ∷ [])
          (get_header_extensions g))

-- The filename is the stem, a dash or an underscore, and one of the suffixes.
abbrev EndsInOne : (Text → Bool) → Text → Text → Type 0
EndsInOne is_one filename stem =
    (sep : ℕ) × (suffix : Text) × (is_separator sep ≡ true)
    × (is_one suffix ≡ true)
    × (filename ≡ stem ++ sep ∷ suffix)

dropped :
    (filename suffix stem : Text) (sep : ℕ)
    → filename ≡ stem ++ sep ∷ suffix
    → take (length filename - length suffix - 1) filename ≡ stem
dropped filename suffix stem sep e =
    rw (e, size_of stem suffix sep) (take-length stem (sep ∷ suffix))

absent :
    (filename s stem suffix : Text) (ss : List Text) (sep : ℕ)
    → has_suffix filename s ≡ false
    → is_separator sep ≡ true
    → filename ≡ stem ++ sep ∷ suffix
    → (text_eq s suffix || member suffix ss) ≡ true
    → member suffix ss ≡ true
absent filename s stem suffix ss sep lacks is_sep whole h = elim (Bool-cases (text_eq s suffix)) [
  | inr other ↦ rw other at h
  | inl same ↦
      let has : has_suffix filename s ≡ true =
        ap (λ (t : Text). has_suffix filename t) ((text_eq_iff s suffix).0 same)
        ∙ ap (λ (t : Text). has_suffix t suffix) whole
        ∙ has_suffix-Parted stem suffix sep is_sep in
      absurd (ground (arith, has, lacks))
]

drop_suffix-cases :
    (filename : Text) (ss : List Text)
    → EndsInOne (λ suffix. member suffix ss) filename (drop_suffix filename ss)
      ⊎ (¬ ((stem : Text) × EndsInOne (λ suffix. member suffix ss) filename stem)
          × (drop_suffix filename ss ≡ (path_splitext filename).0))
unfolding drop_suffix member
drop_suffix-cases filename [] =
    inr (λ (stem, (sep, suffix, _, e, _)). absurd (ground (arith, e)), refl)
drop_suffix-cases filename (s ∷ ss) = elim (Bool-cases (has_suffix filename s)) [
  | inl has ↦
      let (stem, sep, is_sep, whole) = Parted-has_suffix filename s has in
      let e : drop_suffix filename (s ∷ ss) ≡ stem =
        rw (has, drop_suffix) (dropped filename s stem sep whole) in
      inl (
        subst (EndsInOne (λ suffix. member suffix (s ∷ ss)) filename) (sym e)
          (sep, s, is_sep, rw (text_eq_refl s) refl, whole))
  | inr lacks ↦
      let e : drop_suffix filename (s ∷ ss) ≡ drop_suffix filename ss =
        rw (lacks, drop_suffix) refl in
      elim (drop_suffix-cases filename ss) [
        | inl (sep, suffix, is_sep, mem, whole) ↦ inl (
          sep,
          suffix,
          is_sep,
          ground (arith, mem),
          whole ∙ ap (λ (t : Text). t ++ sep ∷ suffix) (sym e),
        )
        | inr (never, root) ↦ inr (
          λ (stem, (sep, suffix, is_sep, mem, whole)). never (
            stem,
            (
              sep,
              suffix,
              is_sep,
              absent filename s stem suffix ss sep lacks is_sep whole mem,
              whole,
            ),
          ),
          e ∙ root,
        )
      ]
]

-- The filename is the stem, a dash or an underscore, and a common suffix.
abbrev pub HasCommonSuffix : Extensions → Text → Text → Type 0
HasCommonSuffix g filename stem = EndsInOne (is_common_suffix g) filename stem

-- _DropCommonSuffixes, under any extensions: where the filename is a stem, a dash or an underscore, and a
-- common suffix, it leaves such a stem, and else it leaves the root that os.path.splitext gives. The
-- common suffixes are test, regtest and unittest with an extension of source files, and inl, imp and
-- internal with one of headers.
pub drop_common_suffixes_lem :
    (g : Extensions) (filename : Text)
    → HasCommonSuffix g filename (drop_common_suffixes g filename)
      ⊎ (¬ ((stem : Text) × HasCommonSuffix g filename stem)
          × (drop_common_suffixes g filename ≡ (path_splitext filename).0))
unfolding drop_common_suffixes
drop_common_suffixes_lem g filename = elim (drop_suffix-cases filename (common_suffixes g)) [
  | inl (sep, suffix, is_sep, mem, whole) ↦
      inl (sep, suffix, is_sep, sym (member-common_suffixes g suffix) ∙ mem, whole)
  | inr (never, root) ↦ inr (
    λ (stem, (sep, suffix, is_sep, common, whole)).
        never (stem, (sep, suffix, is_sep, member-common_suffixes g suffix ∙ common, whole)),
    root,
  )
]
