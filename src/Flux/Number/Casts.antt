-- ===== src/Flux/Number/Casts.antt =====
-- A number that was made a text is cast back.
use libjustasic.Base.{
  ℕ, zero, suc, ◌+◌, ◌-◌, ◌/◌, ◌%◌, ◌^◌, ◌≡◌, ◌<◌, refl, sym, append-nil, ◌∙◌, ap, Bool, true,
  false, [], ◌∷◌, ◌++◌, some, ltb, ◌==◌, if◌then◌else◌, arith, Bool-cases, inl, inr, ℤ, pos, negsuc,
  All,
}
use libjustasic.Base.Text.{Bytes}
use libjustasic.Flux.{is_space}
use libjustasic.Flux.Number.{
  is_digit, digits, unsigned_string, to_string, read_digits, skip_space, magnitude, signed_with,
  after_sign, value, out_of_range, in_signed, to_signed, to_unsigned,
}

-- The text does not go on with a digit.
abbrev pub starts_digit : Bytes → Bool
starts_digit [] = false
starts_digit (c ∷ s) = is_digit c

digits-append :
    (fuel n : ℕ) (out rest : Bytes) → digits fuel n (out ++ rest) ≡ digits fuel n out ++ rest
unfolding digits
digits-append zero n out rest = refl
digits-append (suc fuel) n out rest = elim (Bool-cases (ltb n 10)) [
  | inl e ↦ rw e refl
  | inr e ↦ rw e (digits-append fuel (n / 10) ((b'0' + n % 10) ∷ out) rest)
]

digits-All :
    (fuel n : ℕ) (out : Bytes)
    → All (λ c. is_digit c ≡ true) out
    → All (λ c. is_digit c ≡ true) (digits fuel n out)
unfolding digits
digits-All zero n out h = h
digits-All (suc fuel) n out h = elim (Bool-cases (ltb n 10)) [
  | inl e ↦ rw e (ground arith, h)
  | inr e ↦ rw e (digits-All fuel (n / 10) ((b'0' + n % 10) ∷ out) (ground arith, h))
]

pub unsigned_string-All : (n : ℕ) → All (λ c. is_digit c ≡ true) (unsigned_string n)
unfolding unsigned_string
unsigned_string-All n = digits-All (suc n) n [] tt

read_digits-digits :
    (fuel n : ℕ) (out : Bytes) → n < fuel → read_digits 0 (digits fuel n out) ≡ read_digits n out
unfolding digits read_digits
read_digits-digits zero n out h = absurd (omega arith)
read_digits-digits (suc fuel) n out h = elim (Bool-cases (ltb n 10)) [
  | inl e ↦ rw e (ground arith)
  | inr e ↦
      rw e (read_digits-digits fuel (n / 10) ((b'0' + n % 10) ∷ out) (ground arith) ∙ ground arith)
]

-- The first digit.
digits-cons :
    (fuel n : ℕ) (out : Bytes)
    → n < fuel
    → (d : ℕ) × (s : Bytes) × (digits fuel n out ≡ (b'0' + d) ∷ s) × (d < 10)
unfolding digits
digits-cons zero n out h = absurd (omega arith)
digits-cons (suc fuel) n out h = elim (Bool-cases (ltb n 10)) [
  | inl e ↦ (n, out, rw e refl, ground arith)
  | inr e ↦
      let r = digits-cons fuel (n / 10) ((b'0' + n % 10) ∷ out) (ground arith) in
      (r.0, r.1, rw e r.2, r.3)
]

read_digits-stop : (n : ℕ) (rest : Bytes) → starts_digit rest ≡ false → read_digits n rest ≡ n
unfolding read_digits
read_digits-stop n [] h = refl
read_digits-stop n (c ∷ rest) h = rw h refl

-- What a printed number shows to a reader: a digit, and its value.
pub record Shows (n : ℕ) (s : Bytes) : Type 0 where
  pub first : ℕ
  pub tail : Bytes
  pub shape : s ≡ (b'0' + first) ∷ tail
  pub digit : first < 10
  pub reads : read_digits 0 s ≡ n

pub unsigned_string-Shows :
    (n : ℕ) (rest : Bytes) → starts_digit rest ≡ false → Shows n (unsigned_string n ++ rest)
unfolding unsigned_string
unsigned_string-Shows n rest h =
    let r : (d : ℕ) × (s : Bytes) × (digits (suc n) n rest ≡ (b'0' + d) ∷ s) × (d < 10) =
      digits-cons (suc n) n rest (omega arith) in
    let whole = digits-append (suc n) n [] rest in
    record {
      first = r.0;
      tail = r.1;
      shape = sym whole ∙ r.2;
      digit = r.3;
      reads =
          ap (read_digits 0) (sym whole)
          ∙ read_digits-digits (suc n) n rest (omega arith)
          ∙ read_digits-stop n rest h;
    }

magnitude_digit :
    (c : ℕ) (s : Bytes) → is_digit c ≡ true → magnitude (c ∷ s) ≡ some (read_digits 0 (c ∷ s))
unfolding magnitude
magnitude_digit c s d = rw (d, read_digits) refl

module _ (n : ℕ) (s : Bytes) (h : Shows n s) where
  magnitude-Shows : magnitude s ≡ some n
  magnitude-Shows =
      let d : is_digit (b'0' + h.first) ≡ true = ground (arith, h.digit) in
      ap magnitude h.shape
      ∙ magnitude_digit (b'0' + h.first) h.tail d
      ∙ ap some (ap (read_digits 0) (sym h.shape) ∙ h.reads)

  skip_space-Shows : skip_space s ≡ s
  unfolding skip_space is_space
  skip_space-Shows =
      let d : is_space (b'0' + h.first) ≡ false = ground (arith, h.digit) in
      ap skip_space h.shape ∙ rw d (sym h.shape)

  after_sign-Shows : after_sign s ≡ some (false, n)
  unfolding after_sign
  after_sign-Shows =
      let a : ((b'0' + h.first) == b'-') ≡ false = ground (arith, h.digit) in
      let b : ((b'0' + h.first) == b'+') ≡ false = ground (arith, h.digit) in
      ap after_sign h.shape
      ∙ rw (a, b) (ap (signed_with false) (ap magnitude (sym h.shape) ∙ magnitude-Shows))

pub skip_space-append :
    (blank s : Bytes) → All (λ c. is_space c ≡ true) blank → skip_space (blank ++ s) ≡ skip_space s
unfolding skip_space
skip_space-append [] s h = refl
skip_space-append (c ∷ blank) s h = rw h.0 (skip_space-append blank s h.1)

after_sign-minus : (s : Bytes) → after_sign (skip_space (b'-' ∷ s)) ≡ signed_with true (magnitude s)
unfolding skip_space after_sign is_space
after_sign-minus s = refl

-- The number fits into the signed type.
abbrev pub fits : ℕ → ℤ → Bool
fits bits (pos n) = ltb n (2 ^ (bits - 1))
fits bits (negsuc n) = ltb n (2 ^ (bits - 1))

abbrev pub is_negative : ℤ → Bool
is_negative (pos n) = false
is_negative (negsuc n) = true

abbrev pub abs : ℤ → ℕ
abs (pos n) = n
abs (negsuc n) = suc n

-- `strtol` reads the sign and the magnitude of a printed number.
pub strtol-to_string :
    (z : ℤ) (rest : Bytes)
    → starts_digit rest ≡ false
    → after_sign (skip_space (to_string z ++ rest)) ≡ some (is_negative z, abs z)
unfolding to_string
strtol-to_string (pos n) rest h =
    let s = unsigned_string n ++ rest in
    let shows = unsigned_string-Shows n rest h in
    ap after_sign (skip_space-Shows n s shows) ∙ after_sign-Shows n s shows
strtol-to_string (negsuc n) rest h =
    let s = unsigned_string (suc n) ++ rest in
    after_sign-minus s
    ∙ ap (signed_with true) (magnitude-Shows (suc n) s (unsigned_string-Shows (suc n) rest h))

in_signed_lem :
    (bits : ℕ) (z : ℤ)
    → in_signed bits (some (is_negative z, abs z)) ≡ (if fits bits z then value z else out_of_range)
in_signed_lem bits (pos n) = refl
in_signed_lem bits (negsuc n) = ground arith

-- The text of a number, behind white space and before anything but a digit, is cast to the number
-- where it fits into the type, of any width, and throws `std::out_of_range` elsewhere.
pub to_signed-to_string :
    (bits : ℕ) (z : ℤ) (blank rest : Bytes)
    → All (λ c. is_space c ≡ true) blank
    → starts_digit rest ≡ false
    → to_signed bits (blank ++ (to_string z ++ rest))
      ≡ (if fits bits z then value z else out_of_range)
unfolding to_signed
to_signed-to_string bits z blank rest space stop =
    ap (λ t. in_signed bits (after_sign t)) (skip_space-append blank (to_string z ++ rest) space)
    ∙ ap (in_signed bits) (strtol-to_string z rest stop)
    ∙ in_signed_lem bits z

-- A negative number is cast to an unsigned type as what it is modulo `2 ^ 64`.
to_unsigned-negative :
    (n : ℕ) → n < 2 ^ 64 - 1 → to_unsigned (to_string (negsuc n)) ≡ value (2 ^ 64 - 1 - n)
unfolding to_unsigned
to_unsigned-negative n h =
    let e =
      ap (λ t. after_sign (skip_space t)) (sym (append-nil (to_string (negsuc n))))
      ∙ strtol-to_string (negsuc n) [] refl in
    rw e (ground arith)
