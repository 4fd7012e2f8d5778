-- ===== src/Extensions.antt =====
-- The file extensions (build_support/cpplint.py): ProcessHppHeadersOption to GetNonHeaderExtensions and
-- _IsSourceExtension, with the two global sets as a record.
pub mod Partition
use falcon_link.Prelude.{
  ◌+◌, ◌-◌, ◌*◌, ◌/◌, ◌%◌, ◌^◌, ◌≤◌, ◌<◌, ◌≡◌, ◌∙◌, ◌≡⟨◌⟩◌, ◌∎, ◌≢◌, ◌↔◌, ◌⊎◌, Bool, not, ◌&&◌,
  ◌||◌, List, [], ◌∷◌, ◌++◌, map, codes, strip, split, Text, ◌==◌, if◌then◌else◌, set,
}
use falcon_link.Dict.{add, member, text_keys}
use falcon_link.Regex.{contains}

-- _hpp_headers and _valid_extensions
pub record Extensions : Type 0 where
  pub hpp_headers : List Text
  pub valid_extensions : List Text

abbrev pub new_extensions : Extensions
new_extensions = record { hpp_headers = []; valid_extensions = [] }

-- The items of the second list are added to the set.
unfoldable pub union : List Text → List Text → List Text
unfolding add
union s [] = s
union s (a ∷ t) = union (add a s) t

-- The items of the first set that are not in the second.
unfoldable pub difference : List Text → List Text → List Text
unfolding member
difference [] t = []
difference (a ∷ s) t = if member a t then difference s t else a ∷ difference s t

-- {ext.strip() for ext in val.split(',')}
pub parse_extensions : Text → List Text
unfolding union split strip
parse_extensions val = union [] (map strip (split val b','))

-- ProcessHppHeadersOption; `split` raises no ValueError
unfoldable pub process_hpp_headers_option : Text → Extensions → Extensions
unfolding parse_extensions
process_hpp_headers_option val g = record g { hpp_headers = parse_extensions val }

-- ProcessExtensionsOption
unfoldable pub process_extensions_option : Text → Extensions → Extensions
unfolding parse_extensions
process_extensions_option val g = record g { valid_extensions = parse_extensions val }

-- {h for h in _valid_extensions if 'h' in h}
unfoldable pub with_h : List Text → List Text
unfolding contains
with_h [] = []
with_h (e ∷ es) = if contains b'h' e then e ∷ with_h es else with_h es

-- `s or t` for sets
abbrev pub or_set : List Text → List Text → List Text
or_set [] t = t
or_set (e ∷ s) t = e ∷ s

-- GetHeaderExtensions
unfoldable pub get_header_extensions : Extensions → List Text
unfolding with_h
get_header_extensions g = elim g.hpp_headers [
  | e ∷ es ↦ e ∷ es
  | [] ↦ elim g.valid_extensions [
    | v ∷ vs ↦ with_h (v ∷ vs)
    | [] ↦ codes "h" ∷ codes "hh" ∷ codes "hpp" ∷ codes "hxx" ∷ codes "h++" ∷ codes "cuh" ∷ []
  ]
]

-- GetAllExtensions
unfoldable pub get_all_extensions : Extensions → List Text
unfolding union get_header_extensions
get_all_extensions g = union (get_header_extensions g) (
    or_set g.valid_extensions
      (codes "c" ∷ codes "cc" ∷ codes "cpp" ∷ codes "cxx" ∷ codes "c++" ∷ codes "cu" ∷ []))

-- GetNonHeaderExtensions
unfoldable pub get_non_header_extensions : Extensions → List Text
unfolding difference get_all_extensions get_header_extensions
get_non_header_extensions g = difference (get_all_extensions g) (get_header_extensions g)

-- IsHeaderExtension
unfoldable pub is_header_extension : Text → Extensions → Bool
unfolding member get_header_extensions
is_header_extension file_extension g = member file_extension (get_header_extensions g)

-- _IsSourceExtension
unfoldable pub is_source_extension : Text → Extensions → Bool
unfolding member get_non_header_extensions
is_source_extension s g = member s (get_non_header_extensions g)
