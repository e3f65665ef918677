-- ===== src/Base/Int.antt =====
-- Go's signed integers where only their sign and magnitude matter. `negsuc n` is -(n + 1).
use Prim.Native.Nat.{ℕ}

pub data ℤ : Type 0 where
  pos : ℕ → ℤ
  negsuc : ℕ → ℤ
