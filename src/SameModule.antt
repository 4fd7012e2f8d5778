-- ===== src/SameModule.antt =====
-- FilesBelongToSameModule (build_support/cpplint.py), with the Extension and the BaseName of the files,
-- which depend on the file system, as arguments.
pub mod Prefix
use falcon_link.Prelude.{
  ℕ, ◌+◌, ◌-◌, ◌*◌, ◌/◌, ◌%◌, ◌^◌, ◌≤◌, ◌<◌, ◌≡◌, ◌∙◌, ◌≡⟨◌⟩◌, ◌∎, ◌≢◌, ◌↔◌, ◌⊎◌, Bool, true, false,
  not, ◌&&◌, ◌||◌, none, some, [], ◌∷◌, ◌++◌, codes, ends_with, replace, lstrip, Text, ◌==◌,
  if◌then◌else◌, length, take, drop,
}
use falcon_link.Regex.{Regex, word, group, finish, ◌▸◌, ◌∣◌, search_in, group_of}
use falcon_link.Extensions.{Extensions, is_header_extension, is_source_extension}

-- _TEST_FILE_SUFFIX: (_test|_regtest|_unittest)$
pub test_file_suffix : Regex
unfolding word
test_file_suffix = group 1 (word "_test" ∣ word "_regtest" ∣ word "_unittest") ▸ finish

-- ext.lstrip('.')
unfoldable pub drop_dots : Text → Text
drop_dots [] = []
drop_dots (c ∷ t) = let rest = drop_dots t in if c == b'.' then rest else c ∷ t

-- t[:-n], which is empty where `n` is 0
pub before_last : ℕ → Text → Text
before_last n t = if n == 0 then [] else take (length t - n) t

-- t.replace('/public/', '/').replace('/internal/', '/')
pub without_public : Text → Text
unfolding replace
without_public t =
    replace (replace t (codes "/public/") (codes "/")) (codes "/internal/") (codes "/")

-- The source file's name without extension, test suffix, and /public/ or /internal/.
unfoldable pub module_of_source : Text → Text → Text → Text
unfolding before_last search_in test_file_suffix group_of without_public
module_of_source filename_cc extension base_name =
    let bare = before_last (length extension) filename_cc in
    without_public (elim (search_in test_file_suffix base_name) [
      | none ↦ bare
      | some m ↦ elim (group_of m 1) [
        | some suffix ↦ before_last (length suffix) bare
        | none ↦ bare
      ]
    ])

-- The header's name without extension, -inl, and /public/ or /internal/.
unfoldable pub module_of_header : Text → Text → Text
unfolding before_last ends_with without_public
module_of_header filename_h extension =
    let bare = before_last (length extension) filename_h in
    without_public (if ends_with bare (codes "-inl") then before_last 4 bare else bare)

-- The end of the function, with both names.
pub compare_modules : Text → Text → Bool × Text
unfolding ends_with before_last
compare_modules filename_cc filename_h =
    if ends_with filename_cc filename_h
    then (true, before_last (length filename_h) filename_cc)
    else (false, [])

-- FilesBelongToSameModule
unfoldable pub files_belong_to_same_module :
    Extensions → Text → Text → Text → Text → Text → Bool × Text
unfolding drop_dots is_source_extension is_header_extension module_of_source module_of_header
    compare_modules
files_belong_to_same_module g filename_cc extension_cc base_name_cc filename_h extension_h =
    if not (is_source_extension (drop_dots extension_cc) g)
    then (false, [])
    else if not (is_header_extension (drop_dots extension_h) g)
    then (false, [])
    else compare_modules (module_of_source filename_cc extension_cc base_name_cc)
        (module_of_header filename_h extension_h)
