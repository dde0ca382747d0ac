-- ===== src/Prelude/Int.antt =====
-- `i64`, as far as it is passed on: `negsuc n` is -(n + 1).
use Prim.Native.Nat.{ℕ}

pub data ℤ : Type 0 where
  pos : ℕ → ℤ
  negsuc : ℕ → ℤ
