-- ===== src/Base/Int.antt =====
-- Python's integers, as far as the program tests the sign of an argument.
use Prim.Native.Nat.{ℕ}

-- `negsuc n` is -(n + 1).
pub data ℤ : Type 0 where
  pos : ℕ → ℤ
  negsuc : ℕ → ℤ
