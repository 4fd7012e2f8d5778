-- ===== src/Nolint.antt =====
-- NOLINT comments and the global suppressions (build_support/cpplint.py).
pub mod Categories
pub mod Lines
pub mod Files
use falcon_link.Prelude.{
  ℕ, ◌+◌, ◌-◌, ◌*◌, ◌/◌, ◌%◌, ◌^◌, ◌≤◌, ◌<◌, ◌≡◌, ◌∙◌, ◌≡⟨◌⟩◌, ◌∎, ◌≢◌, ◌↔◌, ◌⊎◌, Bool, true, false,
  not, ◌&&◌, ◌||◌, Option, none, some, List, [], ◌∷◌, ◌++◌, all, codes, text_eq, starts_with,
  ends_with, Text, ◌==◌, if◌then◌else◌, length, set, take, drop,
}
use mathlib.Core.Option.{get_or}
use falcon_link.Dict.{Dict, get, put, add, member, number_keys, text_keys, option_keys}
use falcon_link.Regex.{
  Regex, boundary, group, finish, star, one, word, none_of, opt, plus, dot, space, ◌▸◌, ◌∣◌, Found,
  search_in, group_of,
}
use falcon_link.Report.{Report, report}
use Categories.{error_categories, legacy_error_categories, c_suppressed, kernel_suppressed}

-- The two global tables: by category (None stands for all) the lines on which it is suppressed,
-- and the categories that are suppressed in the whole file.
pub record Suppressions : Type 0 where
  pub by_line : Dict (Option Text) (List ℕ)
  pub everywhere : Dict Text Bool

-- \bNOLINT(NEXTLINE)?\b(\([^)]+\))?
unfoldable pub nolint_pattern : Regex
unfolding word none_of
nolint_pattern =
    boundary
    ▸ word "NOLINT"
    ▸ opt (group 1 (word "NEXTLINE"))
    ▸ boundary
    ▸ opt (group 2 (one b'(' ▸ plus (none_of ")") ▸ one b')'))

-- `_error_suppressions.setdefault(key, set()).add(line)`
pub suppress : Option Text → ℕ → Suppressions → Suppressions
unfolding get put add
suppress key line s = record s {
  by_line = put s.by_line key (add line (get_or (get s.by_line key) []));
}

-- category[1:-1]
pub inner : Text → Text
inner c = take (length c - 2) (drop 1 c)

-- The category between parentheses.
unfoldable pub parse_category : Text → ℕ → ℕ → Text → Suppressions → Suppressions × List Report
unfolding suppress member error_categories legacy_error_categories inner
parse_category filename linenum line category s =
    if starts_with category (codes "(") && ends_with category (codes ")")
    then (if member (inner category) error_categories
        then (suppress (some (inner category)) line s, [])
        else if not (member (inner category) legacy_error_categories)
        then (
          s,
          report filename linenum "readability/nolint" 5
                (codes "Unknown NOLINT error category: " ++ inner category)
              ∷ [],
        )
        else (s, []))
    else (s, [])

unfoldable pub parse_suppression :
    Text → ℕ → ℕ → Option Text → Suppressions → Suppressions × List Report
unfolding suppress parse_category
parse_suppression filename linenum line none s = (suppress none line s, [])
parse_suppression filename linenum line (some category) s =
    if text_eq category (codes "(*)")
    then (suppress none line s, [])
    else parse_category filename linenum line category s

-- The line that a match suppresses: the next one for NOLINTNEXTLINE.
pub suppressed_line : Found → ℕ → ℕ
suppressed_line m linenum = elim (group_of m 1) [ some _ ↦ linenum + 1 | none ↦ linenum ]

-- ParseNolintSuppressions
unfoldable pub parse_nolint_suppressions :
    Text → Text → ℕ → Suppressions → Suppressions × List Report
unfolding parse_suppression suppressed_line
parse_nolint_suppressions filename raw_line linenum s = elim (search_in nolint_pattern raw_line) [
  | some m ↦ parse_suppression filename linenum (suppressed_line m linenum) (group_of m 2) s
  | none ↦ (s, [])
]

-- \b(?:LINT_C_FILE|vim?:\s*.*(\s*|:)filetype=c(\s*|:|$))
pub search_c_file : Regex
unfolding word
search_c_file =
    boundary
    ▸ (word "LINT_C_FILE"
        ∣ word "vi"
          ▸ opt (one b'm')
          ▸ one b':'
          ▸ star space
          ▸ star dot
          ▸ group 1 (star space ∣ one b':')
          ▸ word "filetype=c"
          ▸ group 2 (star space ∣ one b':' ∣ finish))

-- \b(?:LINT_KERNEL_FILE)
pub search_kernel_file : Regex
unfolding word
search_kernel_file = boundary ▸ word "LINT_KERNEL_FILE"

unfoldable pub matches : Regex → Text → Bool
matches r line = elim (search_in r line) [ some _ ↦ true | none ↦ false ]

pub suppress_everywhere : List Text → Suppressions → Suppressions
unfolding put
suppress_everywhere [] s = s
suppress_everywhere (c ∷ cs) s =
    suppress_everywhere cs (record s { everywhere = put s.everywhere c true })

-- ProcessGlobalSuppresions
unfoldable pub process_global_suppressions : List Text → Suppressions → Suppressions
unfolding suppress_everywhere matches c_suppressed kernel_suppressed
process_global_suppressions [] s = s
process_global_suppressions (line ∷ lines) s =
    let s1 = if matches search_c_file line then suppress_everywhere c_suppressed s else s in
    process_global_suppressions lines
      (if matches search_kernel_file line then suppress_everywhere kernel_suppressed s1 else s1)

-- ResetNolintSuppressions
abbrev pub reset_nolint_suppressions : Suppressions → Suppressions
reset_nolint_suppressions s = record { by_line = []; everywhere = [] }

-- IsErrorSuppressedByNolint
unfoldable pub is_error_suppressed_by_nolint : Text → ℕ → Suppressions → Bool
unfolding get member
is_error_suppressed_by_nolint category linenum s =
    get_or (get s.everywhere category) false
    || member linenum (get_or (get s.by_line (some category)) [])
    || member linenum (get_or (get s.by_line none) [])
