-- ===== src/Prelude/Int.antt =====
-- Signed integers over the native numbers, for the durations that are -1 when no ping is known.
use Prim.Native.Nat.{ℕ}

-- `negsuc n` is -(n + 1).
pub data ℤ : Type 0 where
  pos : ℕ → ℤ
  negsuc : ℕ → ℤ
