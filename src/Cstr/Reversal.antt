-- ===== src/Cstr/Reversal.antt =====
-- `memrev` reverses.
use libjustasic.Base.{
  ℕ, zero, suc, ◌+◌, ◌-◌, ◌≡◌, ◌≤◌, ◌<◌, refl, true, false, [], ◌∷◌, if◌then◌else◌, ltb, leb, ◌==◌,
  length, get_or, set, ap, arith, length-set, Bool-cases, inl, inr, ◌&&◌, ◌⊎◌, sym, ◌∙◌, ltb→lt,
}
use libjustasic.Base.Text.{Bytes}
use libjustasic.Cstr.{swap, memrev_loop, memrev}

get_or-set :
    (xs : Bytes) (i j v : ℕ)
    → i < length xs
    → get_or (set xs i v) j 0 ≡ (if i == j then v else get_or xs j 0)
get_or-set [] i j v h = absurd (omega arith)
get_or-set (x ∷ xs) zero zero v h = ground arith
get_or-set (x ∷ xs) zero (suc j) v h = ground arith
get_or-set (x ∷ xs) (suc i) zero v h = ground arith
get_or-set (x ∷ xs) (suc i) (suc j) v h = ground (arith, get_or-set xs i j v)

length-swap : (xs : Bytes) (s e : ℕ) → length (swap xs s e) ≡ length xs
length-swap xs s e = omega (
  arith,
  length-set xs s (get_or xs e 0),
  length-set (set xs s (get_or xs e 0)) e (get_or xs s 0),
)

get_or-swap :
    (xs : Bytes) (s e i : ℕ)
    → s < length xs
    → e < length xs
    → get_or (swap xs s e) i 0
      ≡ (if e == i then get_or xs s 0 else if s == i then get_or xs e 0 else get_or xs i 0)
get_or-swap xs s e i hs he = ground (
  arith,
  get_or-set (set xs s (get_or xs e 0)) e i (get_or xs s 0),
  get_or-set xs s i (get_or xs e 0),
  length-set xs s (get_or xs e 0),
)

-- What a range of the loop shows at an index.
abbrev mirrored : ℕ → ℕ → Bytes → ℕ → ℕ
mirrored s e dest i = if leb s i && ltb i e then get_or dest (s + e - 1 - i) 0 else get_or dest i 0

within : (s e i : ℕ) → s ≤ i → i < e → (leb s i && ltb i e) ≡ true
within s e i a b = ground arith

without : (s e i : ℕ) → (i < s) ⊎ (e ≤ i) → (leb s i && ltb i e) ≡ false
without s e i h = ground arith

mirrored_in :
    (s e i j : ℕ) (dest : Bytes)
    → s ≤ i
    → i < e
    → i + j + 1 ≡ s + e
    → mirrored s e dest i ≡ get_or dest j 0
mirrored_in s e i j dest a b q = rw (within s e i a b) (ap (λ k. get_or dest k 0) (omega arith))

mirrored_out :
    (s e i : ℕ) (dest : Bytes) → (i < s) ⊎ (e ≤ i) → mirrored s e dest i ≡ get_or dest i 0
mirrored_out s e i dest h = rw (without s e i h) refl

places :
    (s e i : ℕ)
    → ((i < s) ⊎ (e ≤ i))
      ⊎ ((s ≤ i) × (i < e) × ((i ≡ s) ⊎ ((i + 1 ≡ e) ⊎ ((s + 1 ≤ i) × (i + 1 < e)))))
places s e i = ground arith

mirrored-swap :
    (s e i : ℕ) (dest : Bytes)
    → s + 1 < e
    → e ≤ length dest
    → mirrored (s + 1) (e - 1) (swap dest s (e - 1)) i ≡ mirrored s e dest i
mirrored-swap s e i dest h he =
    let at = λ (k : ℕ). get_or-swap dest s (e - 1) k (omega arith) (omega arith) in
    elim (places s e i) [
      | inl o ↦
          mirrored_out (s + 1) (e - 1) i (swap dest s (e - 1)) (ground arith)
          ∙ at i
          ∙ (ground arith)
          ∙ sym (mirrored_out s e i dest o)
      | inr (lo, hi, inl q) ↦
          mirrored_out (s + 1) (e - 1) i (swap dest s (e - 1)) (ground arith)
          ∙ at i
          ∙ (ground arith)
          ∙ sym (mirrored_in s e i (e - 1) dest (omega arith) (omega arith) (omega arith))
      | inr (lo, hi, inr (inl q)) ↦
          mirrored_out (s + 1) (e - 1) i (swap dest s (e - 1)) (ground arith)
          ∙ at i
          ∙ (ground arith)
          ∙ sym (mirrored_in s e i s dest (omega arith) (omega arith) (omega arith))
      | inr (lo, hi, inr (inr q)) ↦
          mirrored_in (s + 1) (e - 1) i (s + e - 1 - i) (swap dest s (e - 1)) q.0
            (omega (arith, q.1)) (omega (arith, q.0, q.1))
          ∙ at (s + e - 1 - i)
          ∙ (ground arith)
          ∙ sym (
              mirrored_in s e i (s + e - 1 - i) dest (omega (arith, q.0, q.1))
                (omega (arith, q.0, q.1)) (omega (arith, q.0, q.1)))
    ]

-- Between the two indices the loop mirrors, outside it changes nothing.
memrev_loop_lem :
    (fuel s e : ℕ) (dest : Bytes) (i : ℕ)
    → e ≤ length dest
    → e ≤ s + fuel
    → (length (memrev_loop fuel s e dest) ≡ length dest)
      × (get_or (memrev_loop fuel s e dest) i 0 ≡ mirrored s e dest i)
unfolding memrev_loop
memrev_loop_lem zero s e dest i he hf = (refl, sym (mirrored_out s e i dest (ground arith)))
memrev_loop_lem (suc fuel) s e dest i he hf = elim (Bool-cases (ltb (s + 1) e)) [
  | inl c ↦
      let h = ltb→lt (s + 1) e c in
      let (kept, ih) =
        memrev_loop_lem fuel (s + 1) (e - 1) (swap dest s (e - 1)) i
          (omega (arith, length-swap dest s (e - 1))) (omega arith) in
      (rw c (kept ∙ length-swap dest s (e - 1)), rw c (ih ∙ mirrored-swap s e i dest h he))
  | inr c ↦ (
    rw c refl,
    rw c (elim (places s e i) [
      | inl o ↦ sym (mirrored_out s e i dest o)
      | inr (lo, hi, q) ↦ sym (mirrored_in s e i i dest lo hi (ground (arith, c, lo, hi)))
    ]),
  )
]

pub length-memrev : (src : Bytes) → length (memrev src) ≡ length src
unfolding memrev
length-memrev src =
    (memrev_loop_lem (length src) 0 (length src) src 0 (omega arith) (omega arith)).0

-- `memrev` keeps the length and puts the byte from each position at the mirrored one.
pub memrev_lem :
    (src : Bytes) (i : ℕ)
    → i < length src
    → (length (memrev src) ≡ length src)
      × (get_or (memrev src) i 0 ≡ get_or src (length src - 1 - i) 0)
unfolding memrev
memrev_lem src i h = ground (arith, memrev_loop_lem (length src) 0 (length src) src i)
