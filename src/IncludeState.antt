-- ===== src/IncludeState.antt =====
-- `_IncludeState` (build_support/cpplint.py): the includes seen so far, and the section of the
-- include block that the file is in.
pub mod Blocks
pub mod Order
pub mod Lookup
use falcon_link.Prelude.{
  ℕ, zero, suc, ◌+◌, ◌-◌, ◌*◌, ◌/◌, ◌%◌, ◌^◌, ◌≤◌, ◌<◌, ◌≡◌, ap, ◌∙◌, ◌≡⟨◌⟩◌, ◌∎, ◌≢◌, ◌↔◌, ◌⊎◌,
  Bool, true, false, not, ◌&&◌, ◌||◌, Option, none, some, List, [], ◌∷◌, ◌++◌, codes, text_eq,
  text_lt, find, replace, lower, Text, leb, ◌==◌, if◌then◌else◌, get_or, set,
}
use falcon_link.Regex.{Regex, start, star, space, one, word, boundary, ◌▸◌, match_start}

-- _C_SYS_HEADER, _CPP_SYS_HEADER, _LIKELY_MY_HEADER, _POSSIBLE_MY_HEADER, _OTHER_HEADER
pub data HeaderType : Type 0 where
  c_sys_header cpp_sys_header likely_my_header possible_my_header other_header : HeaderType

-- _INITIAL_SECTION, _MY_H_SECTION, _C_SECTION, _CPP_SECTION, _OTHER_H_SECTION
pub data Section : Type 0 where
  initial_section my_h_section c_section cpp_section other_h_section : Section

-- The number of the section.
unfoldable pub rank : Section → ℕ
rank initial_section = 0
rank my_h_section = 1
rank c_section = 2
rank cpp_section = 3
rank other_h_section = 4

-- _TYPE_NAMES
unfoldable pub type_name : HeaderType → Text
type_name c_sys_header = codes "C system header"
type_name cpp_sys_header = codes "C++ system header"
type_name likely_my_header = codes "header this file implements"
type_name possible_my_header = codes "header this file may implement"
type_name other_header = codes "other header"

-- _SECTION_NAMES
unfoldable pub section_name : Section → Text
section_name initial_section = codes "... nothing. (This can't be an error.)"
section_name my_h_section = codes "a header this file implements"
section_name c_section = codes "C system header"
section_name cpp_section = codes "C++ system header"
section_name other_h_section = codes "other header"

-- A header and the line of its include.
abbrev pub Include : Type 0
Include = Text × ℕ

pub record IncludeState : Type 0 where
  pub include_list : List (List Include)
  pub section : Section
  pub last_header : Text

-- `self.include_list[-1] = []`
unfoldable pub clear_last : List (List Include) → List (List Include)
clear_last [] = []
clear_last (l ∷ []) = [] ∷ []
clear_last (l ∷ m ∷ ls) = l ∷ clear_last (m ∷ ls)

-- ResetSection
unfoldable pub reset_section : Text → IncludeState → IncludeState
unfolding clear_last
reset_section directive s = record {
  include_list =
      if text_eq directive (codes "if")
        || text_eq directive (codes "ifdef")
        || text_eq directive (codes "ifndef")
      then s.include_list ++ [] ∷ []
      else if text_eq directive (codes "else") || text_eq directive (codes "elif")
      then clear_last s.include_list
      else s.include_list;
  section = initial_section;
  last_header = [];
}

-- The fields of a new object before its `ResetSection('')`; None stands for the section there.
abbrev pub blank_include_state : IncludeState
blank_include_state = record { include_list = [] ∷ []; section = initial_section; last_header = [] }

-- __init__
unfoldable pub new_include_state : IncludeState
unfolding reset_section
new_include_state = reset_section [] blank_include_state

find_in_section : Text → List Include → Option ℕ
find_in_section header [] = none
find_in_section header ((h, line) ∷ l) =
    if text_eq h header then some line else find_in_section header l

find_in : Text → List (List Include) → Option ℕ
unfolding find_in_section
find_in header [] = none
find_in header (l ∷ ls) = elim (find_in_section header l) [
  | some line ↦ some line
  | none ↦ find_in header ls
]

-- FindHeader; `none` is -1.
unfoldable pub find_header : Text → IncludeState → Option ℕ
unfolding find_in
find_header header s = find_in header s.include_list

-- `include_state.include_list[-1].append((include, linenum))`, in CheckIncludeLine
append_last : Include → List (List Include) → List (List Include)
append_last i [] = []
append_last i (l ∷ []) = (l ++ i ∷ []) ∷ []
append_last i (l ∷ m ∷ ls) = l ∷ append_last i (m ∷ ls)

unfoldable pub append_include : Text → ℕ → IncludeState → IncludeState
unfolding append_last
append_include header line s = record s { include_list = append_last (header, line) s.include_list }

-- SetLastHeader
unfoldable pub set_last_header : Text → IncludeState → IncludeState
set_last_header header_path s = record s { last_header = header_path }

-- CanonicalizeAlphabeticalOrder
unfoldable pub canonicalize_alphabetical_order : Text → Text
unfolding replace lower
canonicalize_alphabetical_order header_path =
    lower (replace (replace header_path (codes "-inl.h") (codes ".h")) (codes "-") (codes "_"))

-- ^\s*#\s*include\b
pub include_line : Regex
unfolding word
include_line = start ▸ star space ▸ one b'#' ▸ star space ▸ word "include" ▸ boundary

pub is_include_line : Text → Bool
unfolding match_start include_line
is_include_line line = elim (match_start include_line line) [ some _ ↦ true | none ↦ false ]

last_line : Text → List Text → Text
last_line a [] = a
last_line a (b ∷ bs) = last_line b bs

-- `lines[linenum - 1]`, which is the last line at 0
pub previous_line : List Text → ℕ → Text
unfolding last_line
previous_line [] linenum = []
previous_line (l ∷ ls) zero = last_line l ls
previous_line (l ∷ ls) (suc n) = get_or (l ∷ ls) n []

-- IsInAlphabeticalOrder, with the elided lines of the file
unfoldable pub is_in_alphabetical_order : List Text → ℕ → Text → IncludeState → Bool
unfolding is_include_line previous_line text_lt
is_in_alphabetical_order elided linenum header_path s =
    not (text_lt header_path s.last_header && is_include_line (previous_line elided linenum))

-- The section after the next header; `none` is the early return of the message.
unfoldable pub next_section : HeaderType → Section → Option Section
unfolding rank
next_section c_sys_header s = if leb (rank s) (rank c_section) then some c_section else none
next_section cpp_sys_header s = if leb (rank s) (rank cpp_section) then some cpp_section else none
next_section likely_my_header s =
    some (if leb (rank s) (rank my_h_section) then my_h_section else other_h_section)
next_section possible_my_header s =
    some (if leb (rank s) (rank my_h_section) then my_h_section else other_h_section)
next_section other_header s = some other_h_section

-- CheckNextIncludeOrder: the message, empty if the header is in order, and the new state
unfoldable pub check_next_include_order : HeaderType → IncludeState → Text × IncludeState
unfolding next_section type_name section_name
check_next_include_order header_type s = elim (next_section header_type s.section) [
  | none ↦ (
    codes "Found " ++ (type_name header_type ++ (codes " after " ++ section_name s.section)),
    record s { last_header = [] },
  )
  | some section ↦ (
    [],
    record s {
      section = section;
      last_header = if rank s.section == rank section then s.last_header else [];
    },
  )
]
