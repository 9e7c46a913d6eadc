-- ===== src/Secure.antt =====
-- `TimingSafeStrcmp` of src/Utilities.cpp. `none` is a read past the end of the second string.
pub mod Laws
mod Tests
use libjustasic.Base.{
  ℕ, zero, suc, ◌+◌, ◌-◌, ◌%◌, ◌^◌, Bool, List, [], ◌∷◌, Option, none, some, leb, ◌==◌,
  if◌then◌else◌, length, bit_or, bit_xor,
}
use libjustasic.Base.Text.{Bytes}

-- `str[n]` of a `std::string`: the terminator stands at `size()`, beyond it the read is undefined.
pub char_at : Bytes → ℕ → Option ℕ
char_at [] zero = some 0
char_at [] (suc n) = none
char_at (c ∷ s) zero = some c
char_at (c ∷ s) (suc n) = char_at s n

-- `str2.length() - 1` in `size_t`.
pub tmax : Bytes → ℕ
tmax str2 = (length str2 + 2 ^ 64 - 1) % 2 ^ 64

-- `n <= tmax ? str2[n] : str2[tmax]`.
pub against : Bytes → ℕ → Option ℕ
against str2 n = if leb n (tmax str2) then char_at str2 n else char_at str2 (tmax str2)

-- The loop: the characters of `str1` from index `n` on, and the difference gathered so far.
pub gather : Bytes → Bytes → ℕ → ℕ → Option ℕ
gather [] str2 n ret = some ret
gather (c ∷ str1) str2 n ret = elim (against str2 n) [
  | none ↦ none
  | some d ↦ gather str1 str2 (n + 1) (bit_or ret (bit_xor c d))
]

pub timing_safe_strcmp : Bytes → Bytes → Option Bool
timing_safe_strcmp str1 str2 = elim (gather str1 str2 0 0) [
  | none ↦ none
  | some ret ↦ some (ret == 0)
]
