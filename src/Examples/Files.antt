-- ===== src/Examples/Files.antt =====
-- File names, extensions and the checks of a line by itself.
use falcon_link.Prelude.{
  ℕ, ◌≡◌, refl, ◌≢◌, ◌↔◌, ◌⊎◌, true, false, ◌&&◌, ◌||◌, Option, some, List, [], ◌∷◌, ◌++◌, arith,
  codes, text_eq, starts_with, ends_with, replace, is_space, Text, get_elem?,
}
use falcon_link.Report.{report}
use falcon_link.CleansedLines.{CleansedLines}
use falcon_link.IncludeState.{cpp_sys_header, likely_my_header, possible_my_header, other_header}
use falcon_link.Dict.{member, text_keys}
use falcon_link.Extensions.{
  Extensions, new_extensions, get_header_extensions, get_non_header_extensions, is_header_extension,
  is_source_extension,
}
use falcon_link.Extensions.Partition.{configured, is_header_extension-is_source_extension}
use falcon_link.Includes.{
  path_split, path_splitext, path_normpath, drop_common_suffixes, classify_include,
}
use falcon_link.Includes.Kinds.{is_system_header, classify_include_lem}
use falcon_link.Includes.CppHeaders.{cpp_headers}
use falcon_link.Includes.Extension.{HasCppExtension}
use falcon_link.Includes.Suffixes.{HasCommonSuffix, drop_common_suffixes_lem}
use falcon_link.Regex.{search_in}
use falcon_link.SameModule.{
  drop_dots, module_of_source, module_of_header, files_belong_to_same_module,
}
use falcon_link.SameModule.Prefix.{files_belong_to_same_module_lem}
use falcon_link.BlankLines.{get_previous_non_blank_line}
use falcon_link.BlankLines.Previous.{IsPrevious, get_previous_non_blank_line-IsPrevious}
use falcon_link.FileChecks.{
  check_for_bad_characters, get_indent_level, check_invalid_increment, is_macro_definition,
}
use falcon_link.FileChecks.BadCharacters.{reports_at, due, check_for_bad_characters-reports_at}

split_path : path_split (codes "a//b.cc") ≡ (codes "a", codes "b.cc")
unfolding path_split codes
split_path = refl

split_hidden : path_splitext (codes "a.d/.bashrc") ≡ (codes "a.d/.bashrc", [])
unfolding path_splitext codes
split_hidden = refl

normal_path : path_normpath (codes "/a/b/../public") ≡ codes "/a/public"
unfolding path_normpath codes starts_with text_eq
normal_path = refl

without_suffix : drop_common_suffixes new_extensions (codes "foo/foo_unittest.cc") ≡ codes "foo/foo"
unfolding drop_common_suffixes codes text_eq ends_with get_non_header_extensions
without_suffix = refl

own_header :
    classify_include new_extensions (codes "foo/foo.cc") (codes "foo/foo.h") false
    ≡ likely_my_header
unfolding classify_include codes text_eq starts_with ends_with replace get_non_header_extensions
own_header = refl

near_header :
    classify_include new_extensions (codes "foo/foo_x.cc") (codes "bar/foo_y.h") false
    ≡ possible_my_header
unfolding classify_include codes text_eq starts_with ends_with replace get_non_header_extensions
near_header = refl

abbrev short_file : CleansedLines
short_file =
    let ls =
      codes "int a;" ∷ codes "  " ∷ codes "VLOG(INFO) << *count++;" ∷ codes "  *count++;" ∷ [] in
    record {
      elided = ls;
      lines = ls;
      raw_lines = ls;
      num_lines = 4;
      lines_without_raw_strings = ls;
    }

indented : get_indent_level (codes "  *count++;") ≡ 2
unfolding get_indent_level codes is_space
indented = refl

incremented :
    check_invalid_increment (codes "a.cc") short_file 3
    ≡ some (
        report
          (codes "a.cc")
          3
          "runtime/invalid_increment"
          5
          (codes "Changing pointer instead of value (or unused value of operator*).")
        ∷ [])
unfolding check_invalid_increment codes is_space
incremented = refl

macro : is_macro_definition (codes "#define A \\" ∷ codes "  b" ∷ []) 1 ≡ some true
unfolding is_macro_definition codes
macro = refl

get_previous_non_blank_line-IsPrevious_example :
    (r : Option (Text × ℕ)) × (get_previous_non_blank_line short_file 2 ≡ some r)
    × IsPrevious short_file.elided 2 r
get_previous_non_blank_line-IsPrevious_example =
    get_previous_non_blank_line-IsPrevious short_file 2 (omega arith)

abbrev bad_lines : List Text
bad_lines = codes "a" ∷ (b'a' ∷ 0 ∷ 65533 ∷ []) ∷ []

check_for_bad_characters-reports_at_example :
    reports_at 1 (check_for_bad_characters (codes "a.cc") bad_lines)
    ≡ due (codes "a.cc") 1 (get_elem? bad_lines 1)
check_for_bad_characters-reports_at_example =
    check_for_bad_characters-reports_at (codes "a.cc") bad_lines 1

drop_common_suffixes_lem_example :
    HasCommonSuffix new_extensions
      (codes "foo/foo-inl.h")
      (drop_common_suffixes new_extensions (codes "foo/foo-inl.h"))
    ⊎ (¬ ((stem : Text) × HasCommonSuffix new_extensions (codes "foo/foo-inl.h") stem)
        × (drop_common_suffixes new_extensions (codes "foo/foo-inl.h")
            ≡ (path_splitext (codes "foo/foo-inl.h")).0))
drop_common_suffixes_lem_example = drop_common_suffixes_lem new_extensions (codes "foo/foo-inl.h")

hpp_header :
    classify_include new_extensions (codes "foo/foo.cc") (codes "a/b.hpp") true ≡ other_header
unfolding classify_include codes text_eq starts_with ends_with replace get_non_header_extensions
hpp_header = refl

classify_include_lem_example :
    ((is_system_header (classify_include new_extensions (codes "foo/foo.cc") (codes "vector") true)
        ≡ true)
      ↔ ((true ≡ true) × ¬ (HasCppExtension (codes "vector"))))
    × ((classify_include new_extensions (codes "foo/foo.cc") (codes "vector") true ≡ cpp_sys_header)
        ↔ ((is_system_header
                (classify_include new_extensions (codes "foo/foo.cc") (codes "vector") true)
              ≡ true)
            × (member (codes "vector") cpp_headers ≡ true)))
    × ((is_system_header
            (classify_include new_extensions (codes "foo/foo.cc") (codes "vector") true)
          ≡ true)
        ⊎ (drop_common_suffixes new_extensions (codes "vector")
            ≢ drop_common_suffixes new_extensions (codes "foo/foo.cc"))
        ⊎ (classify_include new_extensions (codes "foo/foo.cc") (codes "vector") true
            ≡ likely_my_header))
classify_include_lem_example =
    classify_include_lem new_extensions (codes "foo/foo.cc") (codes "vector") true

abbrev with_hpp : Extensions
with_hpp = record {
  hpp_headers = codes "hpp" ∷ [];
  valid_extensions = codes "cc" ∷ codes "hpp" ∷ [];
}

is_header_extension-is_source_extension_example :
    ((is_header_extension (codes "cc") with_hpp && is_source_extension (codes "cc") with_hpp)
      ≡ false)
    × ((is_header_extension (codes "cc") with_hpp || is_source_extension (codes "cc") with_hpp) ≡ (
        member (codes "cc") (get_header_extensions with_hpp)
        || member (codes "cc") (configured with_hpp)))
is_header_extension-is_source_extension_example =
    is_header_extension-is_source_extension (codes "cc") with_hpp

one_module :
    files_belong_to_same_module new_extensions
      (codes "/a/base/public/info_test.cc")
      (codes ".cc")
      (codes "info_test")
      (codes "base/info-inl.h")
      (codes ".h")
    ≡ (true, codes "/a/")
unfolding files_belong_to_same_module codes text_eq starts_with ends_with replace
    is_header_extension get_non_header_extensions search_in
one_module = refl

files_belong_to_same_module_lem_example :
    ((files_belong_to_same_module new_extensions
        (codes "/a/b.cc")
        (codes ".cc")
        (codes "b")
        (codes "b.h")
        (codes ".h")).0
      ≡ (is_source_extension (drop_dots (codes ".cc")) new_extensions
          && (is_header_extension (drop_dots (codes ".h")) new_extensions
              && ends_with
                  (module_of_source (codes "/a/b.cc") (codes ".cc") (codes "b"))
                  (module_of_header (codes "b.h") (codes ".h")))))
    × (((files_belong_to_same_module new_extensions
            (codes "/a/b.cc")
            (codes ".cc")
            (codes "b")
            (codes "b.h")
            (codes ".h")).0
          ≡ false)
        ⊎ (module_of_header (codes "b.h") (codes ".h") ≡ [])
        ⊎ ((files_belong_to_same_module new_extensions
                (codes "/a/b.cc")
                (codes ".cc")
                (codes "b")
                (codes "b.h")
                (codes ".h")).1
              ++ module_of_header (codes "b.h") (codes ".h")
            ≡ module_of_source (codes "/a/b.cc") (codes ".cc") (codes "b")))
files_belong_to_same_module_lem_example =
    files_belong_to_same_module_lem new_extensions (codes "/a/b.cc") (codes ".cc") (codes "b")
      (codes "b.h") (codes ".h")
