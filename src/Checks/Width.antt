-- ===== src/Checks/Width.antt =====
-- GetLineWidth (build_support/cpplint.py), over what `unicodedata` says of letters.
use falcon_link.Prelude.{ℕ, ◌+◌, Bool, [], ◌∷◌, Text, if◌then◌else◌}

-- unicodedata.normalize('NFC', t), east_asian_width(c) in ('W', 'F'), and combining(c) != 0
pub record Unicode : Type 0 where
  pub normalize : Text → Text
  pub is_wide : ℕ → Bool
  pub is_combining : ℕ → Bool

-- The loop, on Python 3.3 and later.
unfoldable pub width_of : Unicode → Text → ℕ
width_of u [] = 0
width_of u (c ∷ t) = (if u.is_wide c then 2 else if u.is_combining c then 0 else 1) + width_of u t

-- GetLineWidth
unfoldable pub get_line_width : Unicode → Text → ℕ
unfolding width_of
get_line_width u line = width_of u (u.normalize line)
