-- ===== src/Nolint/Files.antt =====
-- The suppressions of a whole file: which directives set them, and what a reset leaves.
use mathlib.Core.Option.{get_or}
use falcon_link.Prelude.{
  ℕ, ◌≡◌, refl, Bool, true, false, ◌&&◌, ◌||◌, List, [], ◌∷◌, arith, any, Text, text_eq_iff,
  if◌then◌else◌,
}
use falcon_link.Dict.{get, put, get-put, member, number_keys, text_keys, option_keys}
use falcon_link.Nolint.{
  Suppressions, process_global_suppressions, suppress_everywhere, matches, search_c_file,
  search_kernel_file, is_error_suppressed_by_nolint,
}
use falcon_link.Nolint.Categories.{c_suppressed, kernel_suppressed}

-- The category is suppressed in the whole file.
abbrev pub in_file : Text → Suppressions → Bool
in_file c s = get_or (get s.everywhere c) false

suppress_everywhere_lem :
    (cs : List Text) (s : Suppressions) (c : Text)
    → in_file c (suppress_everywhere cs s) ≡ (in_file c s || member c cs)
unfolding suppress_everywhere member
suppress_everywhere_lem [] s c = ground arith
suppress_everywhere_lem (k ∷ cs) s c = ground (
  arith,
  suppress_everywhere_lem cs (record s { everywhere = put s.everywhere k true }) c,
  get-put s.everywhere k c true,
  text_eq_iff k c,
)

suppress_everywhere-by_line :
    (cs : List Text) (s : Suppressions) → (suppress_everywhere cs s).by_line ≡ s.by_line
unfolding suppress_everywhere
suppress_everywhere-by_line [] s = refl
suppress_everywhere-by_line (k ∷ cs) s =
    suppress_everywhere-by_line cs (record s { everywhere = put s.everywhere k true })

process-in_file :
    (lines : List Text) (s : Suppressions) (c : Text)
    → in_file c (process_global_suppressions lines s) ≡ (
        in_file c s
        || (any (matches search_c_file) lines && member c c_suppressed)
        || (any (matches search_kernel_file) lines && member c kernel_suppressed))
unfolding process_global_suppressions any
process-in_file [] s c = ground arith
process-in_file (line ∷ lines) s c =
    let s1 = if matches search_c_file line then suppress_everywhere c_suppressed s else s in
    ground (
      arith,
      process-in_file lines
          (if matches search_kernel_file line then suppress_everywhere kernel_suppressed s1 else s1)
          c,
      suppress_everywhere_lem kernel_suppressed s1 c,
      suppress_everywhere_lem c_suppressed s c,
    )

process-by_line :
    (lines : List Text) (s : Suppressions)
    → (process_global_suppressions lines s).by_line ≡ s.by_line
unfolding process_global_suppressions
process-by_line [] s = refl
process-by_line (line ∷ lines) s =
    let s1 = if matches search_c_file line then suppress_everywhere c_suppressed s else s in
    ground (
      arith,
      process-by_line lines (
          if matches search_kernel_file line then suppress_everywhere kernel_suppressed s1 else s1),
      suppress_everywhere-by_line kernel_suppressed s1,
      suppress_everywhere-by_line c_suppressed s,
    )

-- After the directives of a file are read, an error is suppressed exactly if it was before, or some
-- line marks a C file and its category is one of those suppressed in C files, or some line marks a
-- kernel file and its category is one of those suppressed in kernel files.
pub process_global_suppressions-is_error_suppressed :
    (lines : List Text) (s : Suppressions) (c : Text) (l : ℕ)
    → is_error_suppressed_by_nolint c l (process_global_suppressions lines s) ≡ (
        is_error_suppressed_by_nolint c l s
        || (any (matches search_c_file) lines && member c c_suppressed)
        || (any (matches search_kernel_file) lines && member c kernel_suppressed))
unfolding is_error_suppressed_by_nolint
process_global_suppressions-is_error_suppressed lines s c l =
    ground (arith, process-in_file lines s c, process-by_line lines s)
