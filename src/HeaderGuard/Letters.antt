-- ===== src/HeaderGuard/Letters.antt =====
-- The name of a header guard is an identifier of the preprocessor in capital letters.
use falcon_link.Prelude.{
  ℕ, ◌≡◌, refl, ◌⊎◌, inl, inr, Bool, true, ◌&&◌, ◌||◌, Option, none, some, [], ◌∷◌, ◌++◌, map,
  arith, all, codes, text_eq, Text, leb, ◌==◌, Bool-cases,
}
use falcon_link.HeaderGuard.Paths.{path_split_to_list-Returns}
use falcon_link.HeaderGuard.{
  FileNames, stripped, join_left, strip_list_prefix, guard_letter, get_header_guard_cpp_variable,
  fixup_path_from_root, original_filename,
}

pub Option-cases : {A : Type 0} (o : Option A) → (o ≡ none) ⊎ ((a : A) × (o ≡ some a))
Option-cases none = inl refl
Option-cases (some a) = inr (a, refl)

-- A capital letter, a digit or an underscore.
abbrev pub is_guard_letter : ℕ → Bool
is_guard_letter c = (leb b'A' c && leb c b'Z') || (leb b'0' c && leb c b'9') || c == b'_'

guard_letter-is_guard_letter : (c : ℕ) → is_guard_letter (guard_letter c) ≡ true
unfolding guard_letter
guard_letter-is_guard_letter c = ground arith

letters : (t : Text) → all is_guard_letter (map guard_letter t ++ codes "_") ≡ true
unfolding all codes
letters [] = refl
letters (c ∷ t) = rw (guard_letter-is_guard_letter c) (letters t)

stripped-Returns : (path prefix : Text) → (out : Option Text) × (stripped path prefix ≡ some out)
unfolding stripped
stripped-Returns path prefix =
    let (a, e, _) = path_split_to_list-Returns path in
    let (b, q, _) = path_split_to_list-Returns prefix in
    (join_left (strip_list_prefix a b), rw (e, q, stripped) refl)

fixup_path_from_root-Returns :
    (fs : FileNames) (root : Option Text) (filename : Text)
    → (out : Text) × (fixup_path_from_root fs root filename ≡ some out)
unfolding fixup_path_from_root
fixup_path_from_root-Returns fs none filename = (fs.repository_name filename, refl)
fixup_path_from_root-Returns fs (some root) filename = elim (Bool-cases (text_eq root [])) [
  | inl e ↦ (fs.repository_name filename, rw (e, fixup_path_from_root) refl)
  | inr e ↦
      let (a, q) = stripped-Returns (fs.repository_name filename) root in
      let (b, r) = stripped-Returns (fs.full_name filename) (fs.abspath root) in
      elim (Option-cases a) [
        | inr (x, ea) ↦ (x, rw (e, q, ea, fixup_path_from_root) refl)
        | inl ea ↦ elim (Option-cases b) [
          | inr (y, eb) ↦ (y, rw (e, q, ea, r, eb, fixup_path_from_root) refl)
          | inl eb ↦ (fs.repository_name filename, rw (e, q, ea, r, eb, fixup_path_from_root) refl)
        ]
      ]
]

-- Whatever the names of the file are, and with --root or without, GetHeaderGuardCPPVariable gives a
-- text of capital letters, digits and underscores.
pub get_header_guard_cpp_variable-Returns :
    (fs : FileNames) (root : Option Text) (filename : Text)
    → (guard : Text) × (get_header_guard_cpp_variable fs root filename ≡ some guard)
      × (all is_guard_letter guard ≡ true)
unfolding get_header_guard_cpp_variable
get_header_guard_cpp_variable-Returns fs root filename =
    let (path, e) = fixup_path_from_root-Returns fs root (original_filename filename) in
    (map guard_letter path ++ codes "_", rw (e, get_header_guard_cpp_variable) refl, letters path)
