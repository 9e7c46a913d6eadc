-- ===== src/Flags.antt =====
-- `Flags<T, Size>` of include/Utilities.h (and of include/flags.h): a set of flags in a
-- `std::bitset<Size>`. The bitset is the list of its bits, so its length is `Size`.
pub mod Laws
mod Tests
use libjustasic.Base.{
  ℕ, zero, suc, ◌+◌, ◌≡◌, refl, Bool, true, false, List, [], ◌∷◌, ltb, if◌then◌else◌, length,
  get_or, set, replicate,
}

-- How a member ends: with a value, in undefined behaviour (`operator[]` beyond the bits), or by
-- throwing `std::out_of_range` (`test` beyond the bits).
pub data Outcome {ℓ} (A : Type ℓ) : Type ℓ where
  ok : A → Outcome A
  undefined_behaviour : Outcome A
  out_of_range : Outcome A

infixl 5 ◌>>=◌
abbrev pub ◌>>=◌ {ℓ κ} : {A : Type ℓ} {B : Type κ} → Outcome A → (A → Outcome B) → Outcome B
ok a >>= f = f a
undefined_behaviour >>= f = undefined_behaviour
out_of_range >>= f = out_of_range

-- What a chain that ended with a value went through.
pub ok-through {ℓ κ} :
    {A : Type ℓ} {B : Type κ} {b : B} (f : A → Outcome B) (m : Outcome A)
    → (m >>= f) ≡ ok b
    → (a : A) × (m ≡ ok a) × (f a ≡ ok b)
ok-through f (ok a) h = (a, refl, h)
ok-through f undefined_behaviour h = cc
ok-through f out_of_range h = cc

abbrev pub Bits : Type 0
Bits = List Bool

-- The initial bits of `Flags<T>`, whose `Size` is 32 by default.
abbrev pub default_size : ℕ
default_size = 32

unfoldable pub no_flags : ℕ → Bits
no_flags size = replicate size false

unfoldable pub set_flag : Bits → ℕ → Outcome Bits
set_flag bits value =
    if ltb value (length bits) then ok (set bits value true) else undefined_behaviour

-- `(this->SetFlag(values), ...)`
unfoldable pub set_flags : Bits → List ℕ → Outcome Bits
set_flags bits [] = ok bits
set_flags bits (value ∷ values) = do bits' ← set_flag bits value; set_flags bits' values

unfoldable pub remove_flag : Bits → ℕ → Outcome Bits
remove_flag bits value =
    if ltb value (length bits) then ok (set bits value false) else undefined_behaviour

-- `UnsetFlag` of include/flags.h.
pub unset_flag : Bits → ℕ → Outcome Bits
unset_flag bits value =
    if ltb value (length bits) then ok (set bits value false) else undefined_behaviour

-- `RemoveFlags` has the body of `SetFlags`: it calls `SetFlag`.
pub remove_flags : Bits → List ℕ → Outcome Bits
remove_flags bits [] = ok bits
remove_flags bits (value ∷ values) = do bits' ← set_flag bits value; remove_flags bits' values

unfoldable pub has_flag : Bits → ℕ → Outcome Bool
has_flag bits value = if ltb value (length bits) then ok (get_or bits value false) else out_of_range

pub flag_count : Bits → ℕ
flag_count [] = 0
flag_count (b ∷ bits) = (if b then 1 else 0) + flag_count bits

pub clear_flags : Bits → Bits
clear_flags bits = replicate (length bits) false
