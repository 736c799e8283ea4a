-- ===== src/Int.antt =====
-- Python's int.
use swarmsim.Base.{ℕ}

pub data ℤ : Type 0 where
  pos : ℕ → ℤ
  -- `negsuc n` is -(n + 1).
  negsuc : ℕ → ℤ
