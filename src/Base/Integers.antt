-- ===== src/Base/Integers.antt =====
-- Signed results of system calls and completions.
use Prim.Native.Nat.{ℕ}

-- `pos n` is n, `negsuc n` is -(n + 1)
pub data ℤ : Type 0 where
  pos : ℕ → ℤ
  negsuc : ℕ → ℤ
