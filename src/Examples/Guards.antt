-- ===== src/Examples/Guards.antt =====
-- Header guards.
use falcon_link.Prelude.{
  ◌-◌, ◌≡◌, refl, ◌≢◌, true, none, some, List, [], ◌∷◌, ◌++◌, all, codes, text_eq, starts_with,
  ends_with, replace, is_space, Text, length,
}
use falcon_link.Regex.{search_in}
use falcon_link.HeaderGuard.{FileNames, path_split_to_list, get_header_guard_cpp_variable}
use falcon_link.Nolint.{Suppressions}
use falcon_link.CleansedLines.{CleansedLines}
use falcon_link.HeaderGuard.Checks.{Made, check_for_header_guard, find_guard, no_guard}
use falcon_link.HeaderGuard.Checks.Bounds.{MadeUpTo, check_for_header_guard-MadeUpTo}
use falcon_link.HeaderGuard.Paths.{path_split_to_list-Returns}
use falcon_link.HeaderGuard.Letters.{is_guard_letter, get_header_guard_cpp_variable-Returns}

-- A repository under /home/r.
abbrev names : FileNames
names = record {
  repository_name = λ f. f;
  full_name = λ f. codes "/home/r/" ++ f;
  abspath = λ p. codes "/home/" ++ p;
}

parts :
    path_split_to_list (codes "/a/b/c.h")
    ≡ some (codes "/" ∷ codes "a" ∷ codes "b" ∷ codes "c.h" ∷ [])
unfolding path_split_to_list codes text_eq
parts = refl

guard :
    get_header_guard_cpp_variable names (some (codes "src")) (codes "src/net/tcp-c++_flymake.h")
    ≡ some (codes "NET_TCP_CPP_H_")
unfolding get_header_guard_cpp_variable codes text_eq starts_with ends_with replace search_in
guard = refl

path_split_to_list-Returns_example :
    (out : List Text) × (path_split_to_list (codes "/a/b/c.h") ≡ some out) × (out ≢ [])
path_split_to_list-Returns_example = path_split_to_list-Returns (codes "/a/b/c.h")

get_header_guard_cpp_variable-Returns_example :
    (guard : Text) × (get_header_guard_cpp_variable names
        (some (codes "src"))
        (codes "src/net/tcp.h")
      ≡ some guard)
    × (all is_guard_letter guard ≡ true)
get_header_guard_cpp_variable-Returns_example =
    get_header_guard_cpp_variable-Returns names (some (codes "src")) (codes "src/net/tcp.h")

abbrev header_lines : CleansedLines
header_lines =
    let ls =
      codes "#ifndef NET_TCP_H_"
      ∷ codes "#define NET_TCP_H_"
      ∷ codes "#endif  // NET_TCP_H__ NOLINT(x)"
      ∷ [] in
    record {
      elided = ls;
      lines = ls;
      raw_lines = ls;
      num_lines = 3;
      lines_without_raw_strings = ls;
    }

abbrev no_tables : Suppressions
no_tables = record { by_line = []; everywhere = [] }

check_for_header_guard-MadeUpTo_example :
    (made : Made) × (check_for_header_guard names none (codes "net/tcp.h") header_lines no_tables
      ≡ some made)
    × MadeUpTo (length header_lines.lines_without_raw_strings - 1) made.1
check_for_header_guard-MadeUpTo_example =
    check_for_header_guard-MadeUpTo names none (codes "net/tcp.h") header_lines no_tables

found_guard : (find_guard 0 header_lines.lines_without_raw_strings no_guard).endif_linenum ≡ 2
unfolding find_guard codes is_space text_eq starts_with
found_guard = refl
