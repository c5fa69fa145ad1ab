-- ===== src/Base/Ints.antt =====
-- Go's `int`, as far as the program reads it: line numbers and limits that may be negative.
use Prim.Native.Nat.{ℕ}

-- `negsuc n` is -(n + 1).
pub data ℤ : Type 0 where
  pos : ℕ → ℤ
  negsuc : ℕ → ℤ
