-- ===== src/Base/Text/Find.antt =====
-- The searches of `std::string` and their laws, over any test for equal characters.
use Prim.Native.Nat.{ℕ, zero, suc, ◌+◌, ◌-◌, ◌^◌, ◌≤◌}
use Prim.Native.Nat.add
use mathlib.Core.Path.{◌≡◌, refl, ap}
use mathlib.Core.Logic.{◌≢◌}
use mathlib.Core.Bool.{Bool, true, false, ◌&&◌}
use mathlib.Core.Option
use mathlib.Core.Option.{Option, none, some}
use mathlib.Core.List.{List, [], ◌∷◌, ◌++◌}
use native.Mathlib.Omega.{arith}
use libjustasic.Base.Tests.{ltb, ◌==◌, if◌then◌else◌}
use libjustasic.Base.Lists.{length, take, drop}

abbrev pub Bytes : Type 0
Bytes = List ℕ

-- `std::string::npos` as a number.
abbrev pub npos : ℕ
npos = 2 ^ 64 - 1

module _ (eqc : ℕ → ℕ → Bool) where
  unfoldable pub starts_with : Bytes → Bytes → Bool
  starts_with [] s = true
  starts_with (c ∷ needle) [] = false
  starts_with (c ∷ needle) (d ∷ s) = eqc d c && starts_with needle s

  -- The first place where the text goes on with `needle`.
  unfoldable pub index_of : Bytes → Bytes → Option ℕ
  unfolding starts_with
  index_of needle [] = if starts_with needle [] then some 0 else none
  index_of needle (c ∷ s) =
      if starts_with needle (c ∷ s) then some 0 else Option.map suc (index_of needle s)

  -- `s.find(needle, pos)`, with `none` for `npos`.
  unfoldable pub find_from : Bytes → Bytes → ℕ → Option ℕ
  unfolding index_of
  find_from s needle pos =
      if ltb (length s) pos then none else Option.map (λ i. pos + i) (index_of needle (drop pos s))

  starts_with-length : (needle s : Bytes) → starts_with needle s ≡ true → length needle ≤ length s
  unfolding starts_with
  starts_with-length [] s e = omega arith
  starts_with-length (c ∷ needle) [] e = cc
  starts_with-length (c ∷ needle) (d ∷ s) e = ground (arith, starts_with-length needle s)

  -- A match lies inside the text.
  pub index_of-bound :
      (needle s : Bytes) (i : ℕ) → index_of needle s ≡ some i → i + length needle ≤ length s
  unfolding index_of
  index_of-bound needle [] i e = ground (arith, starts_with-length needle [])
  index_of-bound needle (c ∷ s) zero e =
      ground (arith, starts_with-length needle (c ∷ s), index_of-bound needle s 0)
  index_of-bound needle (c ∷ s) (suc i) e = ground (arith, index_of-bound needle s i)

  starts_with-take :
      (needle s : Bytes) (n : ℕ)
      → starts_with needle (take n s) ≡ true
      → starts_with needle s ≡ true
  unfolding starts_with
  starts_with-take [] s n e = refl
  starts_with-take (c ∷ needle) s zero e = cc
  starts_with-take (c ∷ needle) [] (suc n) e = cc
  starts_with-take (c ∷ needle) (d ∷ s) (suc n) e = ground (arith, starts_with-take needle s n)

  -- Before the first match there is none.
  pub index_of-take :
      (needle s : Bytes) (i : ℕ)
      → needle ≢ []
      → index_of needle s ≡ some i
      → index_of needle (take i s) ≡ none
  unfolding index_of starts_with
  index_of-take [] s i ne e = absurd (ne refl)
  index_of-take (b ∷ needle) [] i ne e = cc
  index_of-take (b ∷ needle) (c ∷ s) zero ne e = refl
  index_of-take (b ∷ needle) (c ∷ s) (suc i) ne e =
      ground
        (arith, index_of-take (b ∷ needle) s i ne, starts_with-take (b ∷ needle) (c ∷ s) (suc i))

  pub index_of-nil : (s : Bytes) → index_of [] s ≡ some 0
  unfolding index_of starts_with
  index_of-nil [] = refl
  index_of-nil (c ∷ s) = refl

  -- `find_from` at a place inside the text searches the rest of it.
  pub find_from_lem :
      (s needle : Bytes) (pos : ℕ)
      → pos ≤ length s
      → find_from s needle pos ≡ Option.map (λ i. pos + i) (index_of needle (drop pos s))
  unfolding find_from
  find_from_lem s needle pos h = ground arith

starts_with-append :
    (needle s : Bytes) → starts_with ◌==◌ needle s ≡ true → s ≡ needle ++ drop (length needle) s
unfolding starts_with
starts_with-append [] s e = refl
starts_with-append (c ∷ needle) [] e = cc
starts_with-append (c ∷ needle) (d ∷ s) e = ground (arith, starts_with-append needle s)

-- With the exact test a match splits the text around the needle.
pub index_of-append :
    (needle s : Bytes) (i : ℕ)
    → index_of ◌==◌ needle s ≡ some i
    → s ≡ take i s ++ (needle ++ drop (i + length needle) s)
unfolding index_of
index_of-append needle [] zero e =
    rw (add.zero (length needle)) (starts_with-append needle [] (ground arith))
index_of-append needle [] (suc i) e = absurd (ground arith)
index_of-append needle (c ∷ s) zero e =
    rw (add.zero (length needle)) (starts_with-append needle (c ∷ s) (ground arith))
index_of-append needle (c ∷ s) (suc i) e =
    rw (add.suc i (length needle)) (ap (◌∷◌ c) (index_of-append needle s i (ground arith)))
