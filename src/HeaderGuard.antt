-- ===== src/HeaderGuard.antt =====
-- PathSplitToList and GetHeaderGuardCPPVariable (build_support/cpplint.py), without the output under
-- _root_debug. What the names of a file are, and the absolute path of --root, is a parameter.
pub mod Letters
pub mod Paths
pub mod Checks
use falcon_link.Prelude.{
  ℕ, zero, suc, ◌+◌, ◌-◌, ◌*◌, ◌/◌, ◌%◌, ◌^◌, ◌≤◌, ◌<◌, ◌≡◌, ◌∙◌, ◌≡⟨◌⟩◌, ◌∎, ◌≢◌, ◌↔◌, ◌⊎◌, true,
  false, ◌&&◌, ◌||◌, Option, none, some, List, [], ◌∷◌, ◌++◌, map, reverse, codes, text_eq,
  starts_with, ends_with, replace, strip, join, Text, leb, ◌==◌, if◌then◌else◌, length, get_or,
}
use mathlib.Core.Option.{get_or as option_or}
use falcon_link.Regex.{
  Regex, Found, one, word, none_of, star, group, finish, ◌▸◌, search_in, group_of,
}
use falcon_link.Includes.{path_split}

-- The loop of PathSplitToList, with the list backwards; `none` means that the fuel ran out.
unfoldable pub path_split_loop : ℕ → Text → List Text → Option (List Text)
unfolding path_split text_eq
path_split_loop zero path lst = none
path_split_loop (suc fuel) path lst =
    let head = (path_split path).0 in
    let tail = (path_split path).1 in
    elim (text_eq head path) [
      | true ↦ some (reverse (lst ++ head ∷ []))
      | false ↦ elim (text_eq tail path) [
        | true ↦ some (reverse (lst ++ tail ∷ []))
        | false ↦ path_split_loop fuel head (lst ++ tail ∷ [])
      ]
    ]

-- PathSplitToList
unfoldable pub path_split_to_list : Text → Option (List Text)
unfolding path_split_loop
path_split_to_list path = path_split_loop (length path + 1) path []

-- StripListPrefix
unfoldable pub strip_list_prefix : List Text → List Text → Option (List Text)
unfolding text_eq
strip_list_prefix lst [] = some lst
strip_list_prefix [] (p ∷ prefix) = none
strip_list_prefix (l ∷ lst) (p ∷ prefix) =
    let rest = strip_list_prefix lst prefix in if text_eq l p then rest else none

-- os.path.join
unfoldable pub path_join : Text → List Text → Text
unfolding starts_with ends_with
path_join path [] = path
path_join path (b ∷ bs) =
    path_join
      (if starts_with b (codes "/")
        then b
        else if text_eq path [] || ends_with path (codes "/")
        then path ++ b
        else path ++ (codes "/" ++ b))
      bs

-- What the file system says: FileInfo(f).RepositoryName(), FileInfo(f).FullName(), os.path.abspath(p).
pub record FileNames : Type 0 where
  pub repository_name : Text → Text
  pub full_name : Text → Text
  pub abspath : Text → Text

-- os.path.join(*maybe_path), where `maybe_path` is neither None nor empty
unfoldable pub join_left : Option (List Text) → Option Text
unfolding path_join
join_left none = none
join_left (some []) = none
join_left (some (part ∷ parts)) = some (path_join part parts)

-- The path without the components of the prefix.
pub stripped : Text → Text → Option (Option Text)
unfolding path_split_to_list strip_list_prefix join_left
stripped path prefix = elim (path_split_to_list path) [
  | none ↦ none
  | some lst ↦ elim (path_split_to_list prefix) [
    | none ↦ none
    | some p ↦ some (join_left (strip_list_prefix lst p))
  ]
]

-- FixupPathFromRoot
unfoldable pub fixup_path_from_root : FileNames → Option Text → Text → Option Text
unfolding stripped
fixup_path_from_root fs none filename = some (fs.repository_name filename)
fixup_path_from_root fs (some root) filename = elim (text_eq root []) [
  | true ↦ some (fs.repository_name filename)
  | false ↦ elim (stripped (fs.repository_name filename) root) [
    | none ↦ none
    | some (some path) ↦ some path
    | some none ↦ elim (stripped (fs.full_name filename) (fs.abspath root)) [
      | none ↦ none
      | some (some path) ↦ some path
      | some none ↦ some (fs.repository_name filename)
    ]
  ]
]

-- _flymake\.h$
pub flymake_suffix : Regex
unfolding word
flymake_suffix = word "_flymake.h" ▸ finish

-- /\.flymake/([^/]*)$
pub flymake_directory : Regex
unfolding word none_of
flymake_directory = word "/.flymake/" ▸ group 1 (star (none_of "/")) ▸ finish

-- Each re.sub replaces one match at most.
pub without_flymake_suffix : Text → Text
unfolding search_in flymake_suffix
without_flymake_suffix filename = elim (search_in flymake_suffix filename) [
  | none ↦ filename
  | some m ↦ m.before ++ (codes ".h" ++ m.after)
]

pub without_flymake_directory : Text → Text
unfolding search_in flymake_directory group_of
without_flymake_directory filename = elim (search_in flymake_directory filename) [
  | none ↦ filename
  | some m ↦ m.before ++ (codes "/" ++ (option_or (group_of m 1) [] ++ m.after))
]

-- The file name without what flymake adds, and with cpp for c++.
unfoldable pub original_filename : Text → Text
unfolding without_flymake_suffix without_flymake_directory replace
original_filename filename =
    replace
      (replace (without_flymake_directory (without_flymake_suffix filename)) (codes "C++")
        (codes "cpp"))
      (codes "c++") (codes "cpp")

-- re.sub(r'[^a-zA-Z0-9]', '_', c) and upper(), letter by letter
pub guard_letter : ℕ → ℕ
guard_letter c =
    if leb b'a' c && leb c b'z'
    then c - 32
    else if (leb b'A' c && leb c b'Z') || (leb b'0' c && leb c b'9')
    then c
    else b'_'

-- GetHeaderGuardCPPVariable, with the value of _root
unfoldable pub get_header_guard_cpp_variable : FileNames → Option Text → Text → Option Text
unfolding original_filename fixup_path_from_root guard_letter
get_header_guard_cpp_variable fs root filename =
    elim (fixup_path_from_root fs root (original_filename filename)) [
      | none ↦ none
      | some path ↦ some (map guard_letter path ++ codes "_")
    ]
