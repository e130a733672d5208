-- ===== src/Base/Int.antt =====
-- Go's `int`: the integers, over the native numbers.
use Prim.Native.Nat.{ℕ, ◌-◌, ◌^◌}
use hertz_study.Base.Tests.{ltb, if◌then◌else◌}

-- `negsuc n` is -(n + 1).
pub data ℤ : Type 0 where
  pos : ℕ → ℤ
  negsuc : ℕ → ℤ

-- The integer that a 64-bit pattern stands for.
abbrev pub signed64 : ℕ → ℤ
signed64 w = if ltb w (2 ^ 63) then pos w else negsuc (2 ^ 64 - w - 1)
