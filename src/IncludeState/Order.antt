-- ===== src/IncludeState/Order.antt =====
-- The order of a block of includes: which sequences of headers CheckNextIncludeOrder accepts.
use falcon_link.Prelude.{
  ℕ, ◌≤◌, ◌<◌, ◌≡◌, refl, ◌↔◌, ◌⊎◌, inl, inr, List, [], ◌∷◌, ◌++◌, arith, dec_lt, codes,
  cons-ne-nil, All,
}
use falcon_link.IncludeState.{
  HeaderType, c_sys_header, cpp_sys_header, likely_my_header, possible_my_header, other_header,
  rank, IncludeState, check_next_include_order,
}
use falcon_link.IncludeState.Blocks.{
  IsMine, IsSystem, IsOrdered, part_nil, cons_c, cons_cpp, cons_mine, cons_other, IsOrdered-nil,
}

-- The section never goes back; there is no message, or the section stays and the last header is
-- forgotten.
pub check_next_include_order-rank :
    (t : HeaderType) (s : IncludeState)
    → (rank s.section ≤ rank (check_next_include_order t s).1.section)
      × (((check_next_include_order t s).0 ≡ [])
          ⊎ (((check_next_include_order t s).1.section ≡ s.section)
              × ((check_next_include_order t s).1.last_header ≡ [])))
unfolding check_next_include_order rank
check_next_include_order-rank c_sys_header s = ground arith
check_next_include_order-rank cpp_sys_header s = ground arith
check_next_include_order-rank likely_my_header s = ground arith
check_next_include_order-rank possible_my_header s = ground arith
check_next_include_order-rank other_header s = ground arith

-- The headers of a block, one after the other, with no message.
pub data Accepted : List HeaderType → IncludeState → Type 0 where
  done : {s : IncludeState} → Accepted [] s
  header :
      {t : HeaderType} {ts : List HeaderType} {s : IncludeState}
      → (check_next_include_order t s).0 ≡ []
      → Accepted ts (check_next_include_order t s).1
      → Accepted (t ∷ ts) s

-- What a step without a message says of the section before it and behind it.
accepted_c :
    (s : IncludeState)
    → (check_next_include_order c_sys_header s).0 ≡ []
    → (rank s.section ≤ 2) × (rank (check_next_include_order c_sys_header s).1.section ≡ 2)
unfolding check_next_include_order rank codes
accepted_c s h = ground arith

accepted_cpp :
    (s : IncludeState)
    → (check_next_include_order cpp_sys_header s).0 ≡ []
    → (rank s.section ≤ 3) × (rank (check_next_include_order cpp_sys_header s).1.section ≡ 3)
unfolding check_next_include_order rank codes
accepted_cpp s h = ground arith

accepted_mine :
    (t : HeaderType) (s : IncludeState)
    → IsMine t
    → ((rank s.section ≤ 1) × (rank (check_next_include_order t s).1.section ≡ 1))
      ⊎ (rank (check_next_include_order t s).1.section ≡ 4)
unfolding check_next_include_order rank
accepted_mine likely_my_header s h = ground arith
accepted_mine possible_my_header s h = ground arith
accepted_mine c_sys_header s h = ground arith
accepted_mine cpp_sys_header s h = ground arith
accepted_mine other_header s h = ground arith

accepted_other : (s : IncludeState) → rank (check_next_include_order other_header s).1.section ≡ 4
unfolding check_next_include_order rank
accepted_other s = refl

ordered_mine :
    (t : HeaderType) (ts : List HeaderType) (s : IncludeState)
    → IsMine t
    → ¬ (IsSystem t)
    → IsOrdered (rank (check_next_include_order t s).1.section) ts
    → IsOrdered (rank s.section) (t ∷ ts)
ordered_mine t ts s m n o = elim (accepted_mine t s m) [
  | inl (le, e) ↦ cons_mine (rank s.section) ts t m le (rw e at o)
  | inr e ↦ cons_other (rank s.section) ts t n (rw e at o)
]

Accepted-IsOrdered :
    {ts : List HeaderType} {s : IncludeState} → Accepted ts s → IsOrdered (rank s.section) ts
Accepted-IsOrdered {s} done = IsOrdered-nil (rank s.section)
Accepted-IsOrdered {s} (header {t = c_sys_header} {ts} ok rest) =
    let (le, e) = accepted_c s ok in
    cons_c (rank s.section) ts le (rw e at (Accepted-IsOrdered rest))
Accepted-IsOrdered {s} (header {t = cpp_sys_header} {ts} ok rest) =
    let (le, e) = accepted_cpp s ok in
    cons_cpp (rank s.section) ts le (rw e at (Accepted-IsOrdered rest))
Accepted-IsOrdered {s} (header {t = likely_my_header} {ts} ok rest) =
    ordered_mine likely_my_header ts s (inl refl) (ground arith) (Accepted-IsOrdered rest)
Accepted-IsOrdered {s} (header {t = possible_my_header} {ts} ok rest) =
    ordered_mine possible_my_header ts s (inr refl) (ground arith) (Accepted-IsOrdered rest)
Accepted-IsOrdered {s} (header {t = other_header} {ts} ok rest) =
    cons_other (rank s.section) ts other_header (ground arith)
      (rw (accepted_other s) at (Accepted-IsOrdered rest))

-- From a bound on a number that is needed only where a list is not empty.
below : (k r : ℕ) {t : HeaderType} {ts : List HeaderType} → (k ≤ r → t ∷ ts ≡ []) → r < k
below k r h = elim (dec_lt r k) [ yes p ↦ p | no p ↦ absurd (cons-ne-nil (h (omega arith))) ]

no_message :
    (t : HeaderType) (s : IncludeState) → ¬ (IsSystem t) → (check_next_include_order t s).0 ≡ []
unfolding check_next_include_order
no_message c_sys_header s h = absurd (h (inl refl))
no_message cpp_sys_header s h = absurd (h (inr refl))
no_message likely_my_header s h = refl
no_message possible_my_header s h = refl
no_message other_header s h = refl

cpp_step :
    (t : HeaderType) (s : IncludeState)
    → t ≡ cpp_sys_header
    → rank s.section < 4
    → ((check_next_include_order t s).0 ≡ []) × (rank (check_next_include_order t s).1.section ≡ 3)
unfolding check_next_include_order rank
cpp_step cpp_sys_header s e h = ground arith
cpp_step _ s e h = absurd (ground arith)

c_step :
    (t : HeaderType) (s : IncludeState)
    → t ≡ c_sys_header
    → rank s.section < 3
    → ((check_next_include_order t s).0 ≡ []) × (rank (check_next_include_order t s).1.section ≡ 2)
unfolding check_next_include_order rank
c_step c_sys_header s e h = ground arith
c_step _ s e h = absurd (ground arith)

mine_step :
    (t : HeaderType) (s : IncludeState)
    → IsMine t
    → rank s.section < 2
    → ((check_next_include_order t s).0 ≡ []) × (rank (check_next_include_order t s).1.section ≡ 1)
unfolding check_next_include_order rank
mine_step likely_my_header s m h = ground arith
mine_step possible_my_header s m h = ground arith
mine_step _ s m h = absurd (ground arith)

accept_others :
    (ts : List HeaderType) (s : IncludeState) → All (λ t. ¬ (IsSystem t)) ts → Accepted ts s
accept_others [] s h = done
accept_others (t ∷ ts) s h =
    header (no_message t s h.0) (accept_others ts (check_next_include_order t s).1 h.1)

accept_cpp :
    (ts others : List HeaderType) (s : IncludeState)
    → All (λ t. t ≡ cpp_sys_header) ts
    → All (λ t. ¬ (IsSystem t)) others
    → (4 ≤ rank s.section → ts ≡ [])
    → Accepted (ts ++ others) s
accept_cpp [] others s h o le = accept_others others s o
accept_cpp (t ∷ ts) others s h o le =
    let (message, at) = cpp_step t s h.0 (below _ _ le) in
    header message
      (accept_cpp ts others (check_next_include_order t s).1 h.1 o (λ q. absurd (omega arith)))

accept_c :
    (ts cpp others : List HeaderType) (s : IncludeState)
    → All (λ t. t ≡ c_sys_header) ts
    → All (λ t. t ≡ cpp_sys_header) cpp
    → All (λ t. ¬ (IsSystem t)) others
    → (3 ≤ rank s.section → ts ≡ [])
    → (4 ≤ rank s.section → cpp ≡ [])
    → Accepted (ts ++ (cpp ++ others)) s
accept_c [] cpp others s h p o le le' = accept_cpp cpp others s p o le'
accept_c (t ∷ ts) cpp others s h p o le le' =
    let (message, at) = c_step t s h.0 (below _ _ le) in
    header message (
      accept_c ts cpp others (check_next_include_order t s).1 h.1 p o (λ q. absurd (omega arith))
        (λ q. absurd (omega arith)))

accept_mine :
    (ts c cpp others : List HeaderType) (s : IncludeState)
    → All IsMine ts
    → All (λ t. t ≡ c_sys_header) c
    → All (λ t. t ≡ cpp_sys_header) cpp
    → All (λ t. ¬ (IsSystem t)) others
    → (2 ≤ rank s.section → ts ≡ [])
    → (3 ≤ rank s.section → c ≡ [])
    → (4 ≤ rank s.section → cpp ≡ [])
    → Accepted (ts ++ (c ++ (cpp ++ others))) s
accept_mine [] c cpp others s h hc p o lm lc lp = accept_c c cpp others s hc p o lc lp
accept_mine (t ∷ ts) c cpp others s h hc p o lm lc lp =
    let (message, at) = mine_step t s h.0 (below _ _ lm) in
    header message (
      accept_mine ts c cpp others (check_next_include_order t s).1 h.1 hc p o
        (λ q. absurd (omega arith)) (λ q. absurd (omega arith)) (λ q. absurd (omega arith)))

IsOrdered-Accepted :
    (ts : List HeaderType) (s : IncludeState) → IsOrdered (rank s.section) ts → Accepted ts s
IsOrdered-Accepted ts s o = rw o.splits (
    accept_mine o.mine o.c_system o.cpp_system o.others s o.mine_are o.c_system_are o.cpp_system_are
      o.others_are (part_nil o.no_mine) (part_nil o.no_c_system) (part_nil o.no_cpp_system))

-- The headers of a block get no message exactly if the block is ordered: first the headers that the
-- file implements or may implement, then C system headers, then C++ system headers, then any that
-- are no system headers, those that the file implements and others in any order; a block that starts
-- in a later section has none of the parts before it.
pub check_next_include_order-IsOrdered :
    (ts : List HeaderType) (s : IncludeState) → Accepted ts s ↔ IsOrdered (rank s.section) ts
check_next_include_order-IsOrdered ts s = (Accepted-IsOrdered, IsOrdered-Accepted ts s)
