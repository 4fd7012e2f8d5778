-- ===== src/Examples/Include.antt =====
-- Includes: the sections of a block, and what FindHeader finds.
use falcon_link.Prelude.{
  ◌≤◌, ◌≡◌, refl, ◌↔◌, ◌⊎◌, false, none, some, List, [], ◌∷◌, codes, text_eq, is_space,
  if◌then◌else◌,
}
use falcon_link.IncludeState.{
  IncludeState, HeaderType, c_sys_header, cpp_sys_header, likely_my_header, other_header,
  initial_section, rank, new_include_state, append_include, reset_section, find_header,
  check_next_include_order, is_in_alphabetical_order, canonicalize_alphabetical_order,
}
use falcon_link.IncludeState.Blocks.{IsOrdered}
use falcon_link.IncludeState.Order.{
  Accepted, check_next_include_order-IsOrdered, check_next_include_order-rank,
}
use falcon_link.IncludeState.Lookup.{
  IsOpen, or_else, find_header-append_include, new, append, reset, Reach-IsOpen,
}

canonical : canonicalize_alphabetical_order (codes "foo/Bar-inl.h") ≡ codes "foo/bar.h"
unfolding canonicalize_alphabetical_order codes
canonical = refl

abbrev out_of_order : IncludeState
out_of_order = record {
  include_list = [] ∷ [];
  section = initial_section;
  last_header = codes "b.h";
}

alphabetical :
    is_in_alphabetical_order
      (codes "#include \"b.h\"" ∷ codes "#include \"a.h\"" ∷ [])
      1
      (codes "a.h")
      out_of_order
    ≡ false
unfolding is_in_alphabetical_order codes is_space
alphabetical = refl

after_cpp :
    (check_next_include_order c_sys_header
      (check_next_include_order cpp_sys_header new_include_state).1).0
    ≡ codes "Found C system header after C++ system header"
unfolding check_next_include_order codes new_include_state
after_cpp = refl

abbrev block : List HeaderType
block = likely_my_header ∷ c_sys_header ∷ cpp_sys_header ∷ other_header ∷ []

check_next_include_order-IsOrdered_example :
    Accepted block new_include_state ↔ IsOrdered (rank new_include_state.section) block
check_next_include_order-IsOrdered_example =
    check_next_include_order-IsOrdered block new_include_state

check_next_include_order-rank_example :
    (rank new_include_state.section
      ≤ rank (check_next_include_order cpp_sys_header new_include_state).1.section)
    × (((check_next_include_order cpp_sys_header new_include_state).0 ≡ [])
        ⊎ (((check_next_include_order cpp_sys_header new_include_state).1.section
              ≡ new_include_state.section)
            × ((check_next_include_order cpp_sys_header new_include_state).1.last_header ≡ [])))
check_next_include_order-rank_example =
    check_next_include_order-rank cpp_sys_header new_include_state

abbrev with_vector : IncludeState
with_vector = append_include (codes "vector") 3 new_include_state

Reach-IsOpen_example : IsOpen (reset_section (codes "if") with_vector)
Reach-IsOpen_example = Reach-IsOpen (reset (append new (codes "vector") 3) (codes "if"))

with_vector-IsOpen : IsOpen with_vector
with_vector-IsOpen = Reach-IsOpen (append new (codes "vector") 3)

find_header-append_include_example :
    find_header (codes "string") (append_include (codes "string") 4 with_vector)
    ≡ or_else
        (find_header (codes "string") with_vector)
        (if text_eq (codes "string") (codes "string") then some 4 else none)
find_header-append_include_example =
    find_header-append_include (codes "string") (codes "string") 4 with_vector with_vector-IsOpen
