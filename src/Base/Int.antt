-- ===== src/Base/Int.antt =====
-- Signed integers over the native numbers, and the 16-bit `short`.
use Prim.Native.Nat.{ℕ, ◌-◌, ◌%◌}
use libjustasic.Base.Tests.{ltb, if◌then◌else◌}

-- `negsuc n` is `-(n + 1)`.
pub data ℤ : Type 0 where
  pos negsuc : ℕ → ℤ

-- The conversion of an unsigned value to `short`.
abbrev pub short : ℕ → ℤ
short n = let m = n % 65536 in if ltb m 32768 then pos m else negsuc (65535 - m)
