-- ===== src/Base/Int.antt =====
-- Python's integers over the native numbers; `negsuc n` is -(n + 1).
use Prim.Native.Nat.{ℕ, ◌<◌}
use mathlib.Core.Bool.{Bool, false}
use rostam_bench.Base.Tests.{ltb}

pub data ℤ : Type 0 where
  pos : ℕ → ℤ
  negsuc : ℕ → ℤ

-- The number is at least 0 and below the bound.
abbrev pub within : ℕ → ℤ → Bool
within bound (pos n) = ltb n bound
within bound (negsuc n) = false

abbrev pub IsBelow : ℕ → ℤ → Type 0
IsBelow bound (pos n) = n < bound
IsBelow bound (negsuc n) = ⊥

abbrev pub to_nat : ℤ → ℕ
to_nat (pos n) = n
to_nat (negsuc n) = 0
