-- ===== src/Random.antt =====
-- `RandomDataGenerator` of src/Utilities.cpp. The numbers drawn from the distribution are a
-- parameter; `none` is a read past the end of the array.
mod Tests
use libjustasic.Base.{
  ℕ, zero, suc, ◌+◌, ◌≡◌, ◌≤◌, ◌<◌, refl, Bool, true, false, ◌||◌, ◌&&◌, List, [], ◌∷◌, ◌++◌,
  Option, none, some, leb, if◌then◌else◌, length, get_elem?, All, arith, ap, passes_below,
  passes_below_lem, Option-cases, Bool-cases, ltb, inl, inr, subst,
}
use libjustasic.Base.Text.{Bytes, Lacks, codes}

-- The array with its terminator; `sizeof(characters)` is 63.
pub characters : Bytes
characters = codes "ABCDEFGHIJKLMNOPQRSTUVWXYZabcdefghijklmnopqrstuvwxyz0123456789" ++ 0 ∷ []

-- `uniform_int_distribution<>(0, sizeof(characters))` draws numbers up to its second bound, which
-- is included.
abbrev pub bound : ℕ
bound = 63

pub random_data_generator : List ℕ → Option Bytes
random_data_generator [] = some []
random_data_generator (n ∷ draws) = elim (get_elem? characters n) [
  | none ↦ none
  | some c ↦ elim (random_data_generator draws) [ none ↦ none | some ret ↦ some (c ∷ ret) ]
]

abbrev pub is_alnum : ℕ → Bool
is_alnum c =
    (leb b'A' c && leb c b'Z') || ((leb b'a' c && leb c b'z') || (leb b'0' c && leb c b'9'))

-- Whether the character at an index is a letter or a digit.
is_good : ℕ → Bool
is_good n = elim (get_elem? characters n) [ none ↦ false | some c ↦ is_alnum c ]

good_table : passes_below is_good 62 ≡ true
unfolding passes_below is_good characters
good_table = refl

good_index : (n : ℕ) → n < 62 → (c : ℕ) × (get_elem? characters n ≡ some c) × (is_alnum c ≡ true)
unfolding is_good
good_index n h = elim (Option-cases (get_elem? characters n)) [
  | inl e ↦ let t = passes_below_lem is_good 62 n good_table h in absurd (ground (arith, t, e))
  | inr (c, e) ↦ let t = passes_below_lem is_good 62 n good_table h in (c, e, ground (arith, t, e))
]

at_terminator : get_elem? characters 62 ≡ some 0
unfolding characters
at_terminator = refl

past_end : get_elem? characters bound ≡ none
unfolding characters
past_end = refl

inside : (n : ℕ) → n < 63 → (c : ℕ) × (get_elem? characters n ≡ some c)
inside n h = elim (Bool-cases (ltb n 62)) [
  | inl e ↦ let (c, at, good) = good_index n (ground (arith, e)) in (c, at)
  | inr e ↦ (0, subst (λ k. get_elem? characters k ≡ some 0) (ground (arith, e)) at_terminator)
]

-- With every number drawn below 62 the text has as many characters as were asked for, and they are
-- letters and digits.
random_data_generator-alnum :
    (draws : List ℕ)
    → All (λ n. n < 62) draws
    → (ret : Bytes) × (random_data_generator draws ≡ some ret)
      × (length ret ≡ length draws)
      × All (λ c. is_alnum c ≡ true) ret
unfolding random_data_generator
random_data_generator-alnum [] h = ([], refl, refl, tt)
random_data_generator-alnum (n ∷ draws) h =
    let (c, at, good) = good_index n h.0 in
    let (ret, e, len, all) = random_data_generator-alnum draws h.1 in
    (c ∷ ret, rw (at, e, random_data_generator) refl, omega (arith, len), (good, all))

-- The two largest numbers that the distribution draws are no index of a letter or a digit: 62 puts a
-- NUL into the text, and 63 reads past the array, wherever among the draws they come.
random_data_generator-bound :
    (before after : List ℕ)
    → All (λ n. n < 63) before
    → (random_data_generator (before ++ bound ∷ after) ≡ none)
      × ((ret : Bytes) × (random_data_generator (before ++ 62 ∷ []) ≡ some ret) × ¬ Lacks 0 ret)
unfolding random_data_generator
random_data_generator-bound [] after h = (
  rw (past_end, random_data_generator) refl,
  (0 ∷ [], rw (at_terminator, random_data_generator) refl, λ l. l.0 refl),
)
random_data_generator-bound (n ∷ before) after h =
    let (c, at) = inside n h.0 in
    let (past, (ret, e, nul)) = random_data_generator-bound before after h.1 in
    (
      rw (at, past, random_data_generator) refl,
      (c ∷ ret, rw (at, e, random_data_generator) refl, λ l. nul l.1),
    )
