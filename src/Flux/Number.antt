-- ===== src/Flux/Number.antt =====
-- Numbers and texts: the constructors from numbers and the casts to numbers of include/Flux.h, with
-- `std::to_string` and the C library's `strtol` that they call.
pub mod Casts
use libjustasic.Base.{
  ℕ, zero, suc, ◌+◌, ◌-◌, ◌*◌, ◌/◌, ◌%◌, ◌^◌, ◌≡◌, ◌≤◌, ◌<◌, refl, Bool, true, false, ◌&&◌, List,
  [], ◌∷◌, ◌++◌, Option, none, some, ltb, leb, ◌==◌, if◌then◌else◌, ℤ, pos, negsuc,
}
use libjustasic.Base.Text.{Bytes}
use libjustasic.Flux.{is_space}

abbrev pub is_digit : ℕ → Bool
is_digit c = leb b'0' c && leb c b'9'

-- The decimal digits of a number before a text; one round for each digit.
unfoldable pub digits : ℕ → ℕ → Bytes → Bytes
digits zero n out = out
digits (suc fuel) n out =
    let rest = digits fuel (n / 10) ((b'0' + n % 10) ∷ out) in
    if ltb n 10 then (b'0' + n) ∷ out else rest

-- `std::to_string` of an unsigned and of a signed number.
unfoldable pub unsigned_string : ℕ → Bytes
unfolding digits
unsigned_string n = digits (suc n) n []

unfoldable pub to_string : ℤ → Bytes
unfolding unsigned_string
to_string (pos n) = unsigned_string n
to_string (negsuc n) = b'-' ∷ unsigned_string (suc n)

-- The value of the leading digits.
unfoldable pub read_digits : ℕ → Bytes → ℕ
read_digits acc [] = acc
read_digits acc (c ∷ s) =
    let rest = read_digits (acc * 10 + (c - b'0')) s in if is_digit c then rest else acc

unfoldable pub skip_space : Bytes → Bytes
skip_space [] = []
skip_space (c ∷ s) = let rest = skip_space s in if is_space c then rest else c ∷ s

unfoldable pub magnitude : Bytes → Option ℕ
unfolding read_digits
magnitude [] = none
magnitude (c ∷ s) = if is_digit c then some (read_digits 0 (c ∷ s)) else none

abbrev pub signed_with : Bool → Option ℕ → Option (Bool × ℕ)
signed_with minus none = none
signed_with minus (some m) = some (minus, m)

-- `strtol` and `strtoul` before the test of the range: the sign and the magnitude, `none` without
-- digits.
unfoldable pub after_sign : Bytes → Option (Bool × ℕ)
unfolding magnitude
after_sign [] = none
after_sign (c ∷ s) =
    if c == b'-'
    then signed_with true (magnitude s)
    else if c == b'+'
    then signed_with false (magnitude s)
    else signed_with false (magnitude (c ∷ s))

-- How a cast ends: with a value, or by throwing.
pub data Cast {ℓ} (A : Type ℓ) : Type ℓ where
  value : A → Cast A
  invalid_argument out_of_range : Cast A

abbrev pub negate : ℕ → ℤ
negate zero = pos 0
negate (suc n) = negsuc n

-- The casts to `int`, `long` and `long long`, which have 32 and 64 bits.
abbrev pub in_signed : ℕ → Option (Bool × ℕ) → Cast ℤ
in_signed bits none = invalid_argument
in_signed bits (some (false, m)) = if ltb m (2 ^ (bits - 1)) then value (pos m) else out_of_range
in_signed bits (some (true, m)) = if leb m (2 ^ (bits - 1)) then value (negate m) else out_of_range

unfoldable pub to_signed : ℕ → Bytes → Cast ℤ
unfolding after_sign skip_space
to_signed bits s = in_signed bits (after_sign (skip_space s))

-- The casts to `unsigned long` and `unsigned long long`: a negative number wraps around.
abbrev pub in_unsigned : Option (Bool × ℕ) → Cast ℕ
in_unsigned none = invalid_argument
in_unsigned (some (minus, m)) =
    if ltb m (2 ^ 64) then value (if minus then (2 ^ 64 - m) % 2 ^ 64 else m) else out_of_range

unfoldable pub to_unsigned : Bytes → Cast ℕ
unfolding after_sign skip_space
to_unsigned s = in_unsigned (after_sign (skip_space s))
