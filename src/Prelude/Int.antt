-- ===== src/Prelude/Int.antt =====
-- Signed integers over the native numbers.
use Prim.Native.Nat.{ℕ, suc, ◌+◌, ◌≤◌}
use gr4_control_plane.Prelude.Equality.{ltb}
use mathlib.Core.Bool.{Bool}

-- `negsuc n` is -(n + 1).
pub data ℤ : Type 0 where
  pos : ℕ → ℤ
  negsuc : ℕ → ℤ

abbrev pub positive_part : ℤ → ℕ
positive_part (pos n) = n
positive_part (negsuc n) = 0

abbrev pub negative_part : ℤ → ℕ
negative_part (pos n) = 0
negative_part (negsuc n) = suc n

infix 50 ◌≤ℤ◌
abbrev pub ◌≤ℤ◌ : ℤ → ℤ → Type 0
m ≤ℤ n = positive_part m + negative_part n ≤ positive_part n + negative_part m

-- `m < n`
abbrev pub ltb_ℤ : ℤ → ℤ → Bool
ltb_ℤ m n = ltb (positive_part m + negative_part n) (positive_part n + negative_part m)
