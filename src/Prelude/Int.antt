-- ===== src/Prelude/Int.antt =====
-- Signed integers over the native numbers, under the library's names.
use Prim.Native.Nat.{ℕ, suc, ◌+◌, ◌-◌}
use mathlib.Core.Bool.{Bool, false}
use falcon_link.Prelude.Tests.{leb, ◌==◌, if◌then◌else◌}

-- `negsuc n` is -(n + 1).
pub data ℤ : Type 0 where
  pos : ℕ → ℤ
  negsuc : ℕ → ℤ

-- a - b
abbrev pub sub_ℕ : ℕ → ℕ → ℤ
sub_ℕ a b = if leb b a then pos (a - b) else negsuc (b - a - 1)

-- z + a - b
abbrev pub change : ℤ → ℕ → ℕ → ℤ
change (pos n) a b = sub_ℕ (n + a) b
change (negsuc n) a b = sub_ℕ a (b + suc n)

-- The integer is this number.
abbrev pub is_ℕ : ℤ → ℕ → Bool
is_ℕ (pos n) k = n == k
is_ℕ (negsuc n) k = false
