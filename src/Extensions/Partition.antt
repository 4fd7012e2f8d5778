-- ===== src/Extensions/Partition.antt =====
-- Header and source extensions: each extension is of one kind.
use falcon_link.Prelude.{
  ◌≡◌, refl, false, not, ◌&&◌, ◌||◌, List, [], ◌∷◌, arith, codes, Text, text_eq_iff,
}
use falcon_link.Dict.{add, member, member-add, text_keys}
use falcon_link.Extensions.{
  Extensions, union, difference, get_header_extensions, get_all_extensions,
  get_non_header_extensions, is_header_extension, is_source_extension, or_set,
}

member-union : (e : Text) (s t : List Text) → member e (union s t) ≡ (member e s || member e t)
unfolding union member
member-union e s [] = ground arith
member-union e s (a ∷ t) = ground (arith, member-union e (add a s) t, member-add a e s)

member-difference :
    (e : Text) (s t : List Text) → member e (difference s t) ≡ (member e s && not (member e t))
unfolding difference member
member-difference e [] t = refl
member-difference e (a ∷ s) t = ground (arith, member-difference e s t, text_eq_iff a e)

-- The extensions that the linter takes, as they are set or by default.
abbrev pub configured : Extensions → List Text
configured g =
    or_set g.valid_extensions
      (codes "c" ∷ codes "cc" ∷ codes "cpp" ∷ codes "cxx" ∷ codes "c++" ∷ codes "cu" ∷ [])

-- Under any options no extension is both a header's and a source file's, and those that are either are
-- the header extensions together with the ones that were set, or are there by default.
pub is_header_extension-is_source_extension :
    (e : Text) (g : Extensions)
    → ((is_header_extension e g && is_source_extension e g) ≡ false)
      × ((is_header_extension e g || is_source_extension e g)
          ≡ (member e (get_header_extensions g) || member e (configured g)))
unfolding is_header_extension is_source_extension get_non_header_extensions get_all_extensions
is_header_extension-is_source_extension e g =
    let h = get_header_extensions g in
    let d = member-difference e (union h (configured g)) h in
    let u = member-union e h (configured g) in (ground (arith, d, u), ground (arith, d, u))
