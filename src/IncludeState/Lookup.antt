-- ===== src/IncludeState/Lookup.antt =====
-- The list of includes: what FindHeader finds after an include is recorded and after a directive.
use falcon_link.Prelude.{
  ℕ, ◌≡◌, refl, ◌≢◌, Option, none, some, List, [], ◌∷◌, ◌++◌, arith, text_eq, Text, if◌then◌else◌,
}
use falcon_link.IncludeState.{
  Include, IncludeState, find_header, find_in, find_in_section, append_include, append_last,
  reset_section, clear_last, blank_include_state, new_include_state, check_next_include_order,
  set_last_header, HeaderType,
}

-- There is a list to append to, so `include_list[-1]` does not raise.
abbrev pub IsOpen : IncludeState → Type 0
IsOpen s = s.include_list ≢ []

-- The first answer, or the second where there is none.
abbrev pub or_else {ℓ} : {A : Type ℓ} → Option A → Option A → Option A
or_else (some a) o = some a
or_else none o = o

find_in_section-append :
    (h k : Text) (line : ℕ) (l : List Include)
    → find_in_section h (l ++ (k, line) ∷ [])
      ≡ or_else (find_in_section h l) (if text_eq k h then some line else none)
unfolding find_in_section
find_in_section-append h k line [] = ground arith
find_in_section-append h k line ((j, at) ∷ l) = ground (arith, find_in_section-append h k line l)

find_in-append_last :
    (h k : Text) (line : ℕ) (l : List Include) (ls : List (List Include))
    → find_in h (append_last (k, line) (l ∷ ls))
      ≡ or_else (find_in h (l ∷ ls)) (if text_eq k h then some line else none)
unfolding find_in append_last
find_in-append_last h k line l [] = ground (arith, find_in_section-append h k line l)
find_in-append_last h k line l (m ∷ ls) = ground (arith, find_in-append_last h k line m ls)

-- After an include is recorded every header is found where it was, and the new one at its line if it
-- was not there before.
pub find_header-append_include :
    (h k : Text) (line : ℕ) (s : IncludeState)
    → IsOpen s
    → find_header h (append_include k line s)
      ≡ or_else (find_header h s) (if text_eq k h then some line else none)
unfolding find_header append_include
find_header-append_include h k line s open_s = go s.include_list open_s
  where
    go :
        (ls : List (List Include))
        → ls ≢ []
        → find_in h (append_last (k, line) ls)
          ≡ or_else (find_in h ls) (if text_eq k h then some line else none)
    go [] n = absurd (n refl)
    go (l ∷ ls) n = find_in-append_last h k line l ls

append_last-ne-nil : (i : Include) (ls : List (List Include)) → ls ≢ [] → append_last i ls ≢ []
unfolding append_last
append_last-ne-nil i [] n = n
append_last-ne-nil i (l ∷ []) n = ground arith
append_last-ne-nil i (l ∷ m ∷ ls) n = ground arith

clear_last-ne-nil : (ls : List (List Include)) → ls ≢ [] → clear_last ls ≢ []
unfolding clear_last
clear_last-ne-nil [] n = n
clear_last-ne-nil (l ∷ []) n = ground arith
clear_last-ne-nil (l ∷ m ∷ ls) n = ground arith

append-ne-nil : (ls : List (List Include)) → ls ++ [] ∷ [] ≢ []
append-ne-nil [] = ground arith
append-ne-nil (l ∷ ls) = ground arith

-- The operations of the class, in any order, from a new object.
pub data Reach : IncludeState → Type 0 where
  new : Reach new_include_state
  reset : {s : IncludeState} → Reach s → (d : Text) → Reach (reset_section d s)
  append : {s : IncludeState} → Reach s → (h : Text) (line : ℕ) → Reach (append_include h line s)
  order : {s : IncludeState} → Reach s → (t : HeaderType) → Reach (check_next_include_order t s).1
  last : {s : IncludeState} → Reach s → (h : Text) → Reach (set_last_header h s)

reset_section-IsOpen : (d : Text) (s : IncludeState) → IsOpen s → IsOpen (reset_section d s)
unfolding reset_section
reset_section-IsOpen d s n =
    ground (arith, append-ne-nil s.include_list, clear_last-ne-nil s.include_list n)

order-IsOpen :
    (t : HeaderType) (s : IncludeState) → IsOpen s → IsOpen (check_next_include_order t s).1
unfolding check_next_include_order
order-IsOpen t s n = ground arith

append-IsOpen :
    (h : Text) (line : ℕ) (s : IncludeState) → IsOpen s → IsOpen (append_include h line s)
unfolding append_include
append-IsOpen h line s n = append_last-ne-nil (h, line) s.include_list n

last-IsOpen : (h : Text) (s : IncludeState) → IsOpen s → IsOpen (set_last_header h s)
unfolding set_last_header
last-IsOpen h s n = n

-- In every state that a new object can get to, there is a list of includes to append to.
pub Reach-IsOpen : {s : IncludeState} → Reach s → IsOpen s
unfolding new_include_state
Reach-IsOpen new = reset_section-IsOpen [] blank_include_state (ground arith)
Reach-IsOpen (reset {s} r d) = reset_section-IsOpen d s (Reach-IsOpen {s = s} r)
Reach-IsOpen (append {s} r h line) = append-IsOpen h line s (Reach-IsOpen {s = s} r)
Reach-IsOpen (order {s} r t) = order-IsOpen t s (Reach-IsOpen {s = s} r)
Reach-IsOpen (last {s} r h) = last-IsOpen h s (Reach-IsOpen {s = s} r)
