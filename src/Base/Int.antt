-- ===== src/Base/Int.antt =====
-- Signed integers over the native numbers.
use Prim.Native.Nat.{ℕ}

pub data ℤ : Type 0 where
  -- n, and -(n + 1).
  pos negsuc : ℕ → ℤ
