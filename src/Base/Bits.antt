-- ===== src/Base/Bits.antt =====
-- When `bit_or` and `bit_xor` give zero, from the digit recursion that they stand for.
use Prim.Native.Nat.{
  ℕ, zero, suc, ◌/◌, ◌%◌, ◌≤◌, max, bit_or, bit_xor, digits, differ, bit_or-bitwise,
  bit_xor-bitwise,
}
use mathlib.Core.Path.{◌≡◌, refl, ◌∙◌, sym}
use native.Mathlib.Omega.{arith}

or_digits-zero : (n a b : ℕ) → a ≤ n → digits (λ b. b) max n a b ≡ 0 → (a ≡ 0) × (b ≡ 0)
or_digits-zero zero zero b h e = omega arith
or_digits-zero (suc n) zero b h e = omega arith
or_digits-zero zero (suc a) b h e = absurd (omega arith)
or_digits-zero (suc n) (suc a) b h e =
    let ih = or_digits-zero n (suc a / 2) (b / 2) (omega arith) (omega arith) in omega arith

differ-zero : (a b : ℕ) → differ a b ≡ 0 → a ≡ b
differ-zero zero b e = omega arith
differ-zero (suc a) zero e = e
differ-zero (suc a) (suc b) e = let ih = differ-zero a b e in omega arith

differ_self : (a : ℕ) → differ a a ≡ 0
differ_self zero = refl
differ_self (suc a) = differ_self a

xor_digits-zero : (n a b : ℕ) → a ≤ n → digits (λ b. b) differ n a b ≡ 0 → a ≡ b
xor_digits-zero zero zero b h e = omega arith
xor_digits-zero (suc n) zero b h e = omega arith
xor_digits-zero zero (suc a) b h e = absurd (omega arith)
xor_digits-zero (suc n) (suc a) b h e =
    let ih = xor_digits-zero n (suc a / 2) (b / 2) (omega arith) (omega arith) in
    let low = differ-zero (suc a % 2) (b % 2) (omega arith) in omega arith

xor_digits_self : (n a : ℕ) → a ≤ n → digits (λ b. b) differ n a a ≡ 0
xor_digits_self zero zero h = refl
xor_digits_self (suc n) zero h = refl
xor_digits_self zero (suc a) h = absurd (omega arith)
xor_digits_self (suc n) (suc a) h =
    omega (arith, xor_digits_self n (suc a / 2) (omega arith), differ_self (suc a % 2))

pub bit_or-eq-zero : (a b : ℕ) → bit_or a b ≡ 0 → (a ≡ 0) × (b ≡ 0)
bit_or-eq-zero a b e = or_digits-zero a a b (omega arith) (sym (bit_or-bitwise a b) ∙ e)

pub zero-bit_or : (b : ℕ) → bit_or 0 b ≡ b
zero-bit_or b = bit_or-bitwise 0 b

pub bit_xor-eq-zero : (a b : ℕ) → bit_xor a b ≡ 0 → a ≡ b
bit_xor-eq-zero a b e = xor_digits-zero a a b (omega arith) (sym (bit_xor-bitwise a b) ∙ e)

pub bit_xor_self : (a : ℕ) → bit_xor a a ≡ 0
bit_xor_self a = bit_xor-bitwise a a ∙ xor_digits_self a a (omega arith)
