-- ===== src/IncludeState/Blocks.antt =====
-- Ordered blocks of includes, and the headers that can stand in front of one.
use falcon_link.Prelude.{ℕ, suc, ◌≤◌, ◌≡◌, refl, ap, ◌⊎◌, inl, inr, List, [], ◌∷◌, ◌++◌, arith, All}
use falcon_link.IncludeState.{
  HeaderType, c_sys_header, cpp_sys_header, likely_my_header, possible_my_header,
}

abbrev pub IsMine : HeaderType → Type 0
IsMine t = (t ≡ likely_my_header) ⊎ (t ≡ possible_my_header)

abbrev pub IsSystem : HeaderType → Type 0
IsSystem t = (t ≡ c_sys_header) ⊎ (t ≡ cpp_sys_header)

-- The headers that the file implements, the C system headers, the C++ system headers, and others
-- or headers that it may implement, in this order; the parts before the section are empty.
pub record IsOrdered (r : ℕ) (ts : List HeaderType) : Type 0 where
  pub mine : List HeaderType
  pub c_system : List HeaderType
  pub cpp_system : List HeaderType
  pub others : List HeaderType
  pub splits : ts ≡ mine ++ (c_system ++ (cpp_system ++ others))
  pub mine_are : All IsMine mine
  pub c_system_are : All (λ t. t ≡ c_sys_header) c_system
  pub cpp_system_are : All (λ t. t ≡ cpp_sys_header) cpp_system
  pub others_are : All (λ t. ¬ (IsSystem t)) others
  pub no_mine : (r ≤ 1) ⊎ (mine ≡ [])
  pub no_c_system : (r ≤ 2) ⊎ (c_system ≡ [])
  pub no_cpp_system : (r ≤ 3) ⊎ (cpp_system ≡ [])

-- A part that comes before the section is empty.
pub part_nil : {k r : ℕ} {l : List HeaderType} → (r ≤ k) ⊎ (l ≡ []) → suc k ≤ r → l ≡ []
part_nil (inl le) h = absurd (omega arith)
part_nil (inr e) h = e

module _ (r : ℕ) (ts : List HeaderType) where
  pub cons_c : r ≤ 2 → IsOrdered 2 ts → IsOrdered r (c_sys_header ∷ ts)
  cons_c le o = record {
    mine = [];
    c_system = c_sys_header ∷ o.c_system;
    cpp_system = o.cpp_system;
    others = o.others;
    splits = ap (◌∷◌ c_sys_header) (rw (part_nil o.no_mine (omega arith)) at o.splits);
    mine_are = tt;
    c_system_are = (refl, o.c_system_are);
    cpp_system_are = o.cpp_system_are;
    others_are = o.others_are;
    no_mine = inr refl;
    no_c_system = inl (omega arith);
    no_cpp_system = inl (omega arith);
  }

  pub cons_cpp : r ≤ 3 → IsOrdered 3 ts → IsOrdered r (cpp_sys_header ∷ ts)
  cons_cpp le o = record {
    mine = [];
    c_system = [];
    cpp_system = cpp_sys_header ∷ o.cpp_system;
    others = o.others;
    splits =
        ap (◌∷◌ cpp_sys_header)
          (rw (part_nil o.no_mine (omega arith), part_nil o.no_c_system (omega arith)) at o.splits);
    mine_are = tt;
    c_system_are = tt;
    cpp_system_are = (refl, o.cpp_system_are);
    others_are = o.others_are;
    no_mine = inr refl;
    no_c_system = inr refl;
    no_cpp_system = inl (omega arith);
  }

  pub cons_mine : (t : HeaderType) → IsMine t → r ≤ 1 → IsOrdered 1 ts → IsOrdered r (t ∷ ts)
  cons_mine t m le o = record {
    mine = t ∷ o.mine;
    c_system = o.c_system;
    cpp_system = o.cpp_system;
    others = o.others;
    c_system_are = o.c_system_are;
    cpp_system_are = o.cpp_system_are;
    others_are = o.others_are;
    splits = ap (◌∷◌ t) o.splits;
    mine_are = (m, o.mine_are);
    no_mine = inl (omega arith);
    no_c_system = inl (omega arith);
    no_cpp_system = inl (omega arith);
  }

  pub cons_other : (t : HeaderType) → ¬ (IsSystem t) → IsOrdered 4 ts → IsOrdered r (t ∷ ts)
  cons_other t n o = record {
    mine = [];
    c_system = [];
    cpp_system = [];
    others = t ∷ o.others;
    splits = ap (◌∷◌ t) (
        rw
          (
            part_nil o.no_mine (omega arith),
            part_nil o.no_c_system (omega arith),
            part_nil o.no_cpp_system (omega arith),
          )
          at o.splits);
    mine_are = tt;
    c_system_are = tt;
    cpp_system_are = tt;
    others_are = (n, o.others_are);
    no_mine = inr refl;
    no_c_system = inr refl;
    no_cpp_system = inr refl;
  }

pub IsOrdered-nil : (r : ℕ) → IsOrdered r []
IsOrdered-nil r = record {
  mine = [];
  c_system = [];
  cpp_system = [];
  others = [];
  splits = refl;
  mine_are = tt;
  c_system_are = tt;
  cpp_system_are = tt;
  others_are = tt;
  no_mine = inr refl;
  no_c_system = inr refl;
  no_cpp_system = inr refl;
}
