-- ===== src/Includes.antt =====
-- What kind of header an include is (build_support/cpplint.py): _DropCommonSuffixes and
-- _ClassifyInclude, with what they use of Python's `os.path` on POSIX.
pub mod CppHeaders
pub mod Suffixes
pub mod Extension
pub mod Kinds
use falcon_link.Prelude.{
  ℕ, ◌+◌, ◌-◌, ◌*◌, ◌/◌, ◌%◌, ◌^◌, ◌≤◌, ◌<◌, ◌≡◌, ◌∙◌, ◌≡⟨◌⟩◌, ◌∎, ◌≢◌, ◌↔◌, ◌⊎◌, inl, Bool, false,
  not, ◌&&◌, ◌||◌, none, some, List, [], ◌∷◌, ◌++◌, map, reverse, all, codes, text_eq, starts_with,
  ends_with, replace, lstrip, split, join, Text, ltb, ◌==◌, if◌then◌else◌, length, get_or, take,
  drop,
}
use falcon_link.Dict.{member, text_keys}
use falcon_link.Regex.{Regex, start, plus, none_of, ◌▸◌, match_start}
use falcon_link.IncludeState.{
  HeaderType, c_sys_header, cpp_sys_header, likely_my_header, possible_my_header, other_header,
}
use falcon_link.Extensions.{Extensions, get_header_extensions, get_non_header_extensions}
use CppHeaders.{cpp_headers}

-- The text up to the last occurrence of the letter, and what is behind it.
unfoldable pub split_last : ℕ → Text → Text × Text
split_last c [] = ([], [])
split_last c (x ∷ t) =
    let (head, rest) = split_last c t in
    elim head [
      | [] ↦ if x == c then (x ∷ [], rest) else ([], x ∷ rest)
      | y ∷ ys ↦ (x ∷ y ∷ ys, rest)
    ]

unfoldable pub drop_slashes : Text → Text
drop_slashes [] = []
drop_slashes (c ∷ t) = let rest = drop_slashes t in if c == b'/' then rest else c ∷ t

-- os.path.split
unfoldable pub path_split : Text → Text × Text
unfolding split_last drop_slashes all
path_split p =
    let head = (split_last b'/' p).0 in
    (
      if all (λ c. c == b'/') head then head else reverse (drop_slashes (reverse head)),
      (split_last b'/' p).1,
    )

-- os.path.splitext
unfoldable pub path_splitext : Text → Text × Text
unfolding split_last all
path_splitext p =
    let name = (split_last b'/' p).1 in
    let dotted = (split_last b'.' name).0 in
    let stem = take (length dotted - 1) dotted in
    if all (λ c. c == b'.') stem
    then (p, [])
    else ((split_last b'/' p).0 ++ stem, b'.' ∷ (split_last b'.' name).1)

-- The loop of os.path.normpath over the components, with the kept ones backwards.
unfoldable pub norm_components : Bool → List Text → List Text → List Text
norm_components rooted kept [] = reverse kept
norm_components rooted kept (comp ∷ comps) =
    let skipped = norm_components rooted kept comps in
    let added = norm_components rooted (comp ∷ kept) comps in
    if text_eq comp [] || text_eq comp (codes ".")
    then skipped
    else if not (text_eq comp (codes ".."))
    then added
    else elim kept [
      | [] ↦ if rooted then skipped else added
      | last ∷ before ↦
          if text_eq last (codes "..") then added else norm_components rooted before comps
    ]

-- The slashes that os.path.normpath keeps at the beginning.
pub initial_slashes : Text → Text
unfolding starts_with
initial_slashes p =
    if starts_with p (codes "//") && not (starts_with p (codes "///"))
    then codes "//"
    else if starts_with p (codes "/")
    then codes "/"
    else []

-- os.path.normpath
unfoldable pub path_normpath : Text → Text
unfolding norm_components initial_slashes split join starts_with
path_normpath p =
    let norm =
      initial_slashes p
      ++ join (codes "/") (norm_components (starts_with p (codes "/")) [] (split p b'/')) in
    elim norm [ [] ↦ codes "." | c ∷ t ↦ c ∷ t ]

-- _test_suffixes, and test_suffix.lstrip('_')
abbrev pub test_suffixes : List Text
test_suffixes = codes "_test" ∷ codes "_regtest" ∷ codes "_unittest" ∷ []

unfoldable pub drop_underscores : Text → Text
drop_underscores [] = []
drop_underscores (c ∷ t) = let rest = drop_underscores t in if c == b'_' then rest else c ∷ t

-- '%s.%s' of each pair of itertools.product
unfoldable pub suffixes_of : List Text → List Text → List Text
suffixes_of [] exts = []
suffixes_of (suffix ∷ suffixes) exts =
    map (λ ext. suffix ++ (codes "." ++ ext)) exts ++ suffixes_of suffixes exts

unfoldable pub common_suffixes : Extensions → List Text
unfolding suffixes_of drop_underscores
common_suffixes g =
    suffixes_of (map drop_underscores test_suffixes) (get_non_header_extensions g)
    ++ suffixes_of (codes "inl" ∷ codes "imp" ∷ codes "internal" ∷ []) (get_header_extensions g)

-- The condition under which a suffix is dropped: behind a dash or an underscore.
pub has_suffix : Text → Text → Bool
unfolding ends_with
has_suffix filename suffix =
    let before = get_or filename (length filename - length suffix - 1) 0 in
    ends_with filename suffix
    && (ltb (length suffix) (length filename) && (before == b'-' || before == b'_'))

-- The loop of _DropCommonSuffixes.
unfoldable pub drop_suffix : Text → List Text → Text
unfolding has_suffix path_splitext
drop_suffix filename [] = (path_splitext filename).0
drop_suffix filename (suffix ∷ suffixes) =
    let rest = drop_suffix filename suffixes in
    if has_suffix filename suffix then take (length filename - length suffix - 1) filename else rest

-- _DropCommonSuffixes
unfoldable pub drop_common_suffixes : Extensions → Text → Text
unfolding drop_suffix common_suffixes
drop_common_suffixes g filename = drop_suffix filename (common_suffixes g)

-- _RE_FIRST_COMPONENT: ^[^-_.]+
pub first_component : Regex
unfolding none_of
first_component = start ▸ plus (none_of "-_.")

-- Both names begin with the same component.
pub same_first_component : Text → Text → Bool
unfolding match_start first_component
same_first_component target include = elim (match_start first_component target) [
  | none ↦ false
  | some m ↦ elim (match_start first_component include) [
    | none ↦ false
    | some n ↦ text_eq m.hit n.hit
  ]
]

-- `is_system` after headers with C++ extensions are taken out.
pub stays_system : Text → Bool → Bool
unfolding path_splitext member
stays_system include is_system =
    is_system
    && not (member (path_splitext include).1 (codes ".hpp" ∷ codes ".hxx" ∷ codes ".h++" ∷ []))

-- The rest of _ClassifyInclude, for what is no system header.
pub classify_own : Extensions → Text → Text → HeaderType
unfolding drop_common_suffixes path_split path_normpath same_first_component replace
classify_own g repository_name include =
    let target = path_split (drop_common_suffixes g repository_name) in
    let own = path_split (drop_common_suffixes g include) in
    let target_dir_pub =
      replace (path_normpath (target.0 ++ codes "/../public")) (codes "\\") (codes "/") in
    if text_eq target.1 own.1 && (text_eq own.0 target.0 || text_eq own.0 target_dir_pub)
    then likely_my_header
    else if same_first_component target.1 own.1
    then possible_my_header
    else other_header

-- is_cpp_h
pub is_cpp_h : Text → Bool
unfolding member cpp_headers
is_cpp_h include = member include cpp_headers

-- _ClassifyInclude, with the RepositoryName of the file
unfoldable pub classify_include : Extensions → Text → Text → Bool → HeaderType
unfolding classify_own stays_system is_cpp_h
classify_include g repository_name include is_system =
    if stays_system include is_system
    then (if is_cpp_h include then cpp_sys_header else c_sys_header)
    else classify_own g repository_name include
