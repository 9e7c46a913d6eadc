-- ===== src/Modules/Unloading/Walk.antt =====
-- The places of a walk over the list of modules.
use libjustasic.Base.{
  ℕ, suc, ◌≡◌, ◌≢◌, ◌⊎◌, ◌<◌, ◌≤◌, refl, sym, subst, false, List, [], ◌∷◌, Option, none, some,
  length, arith, All, Bool-cases, inl, inr, if◌then◌else◌,
}
use libjustasic.Base.Text.{Bytes}
use libjustasic.Base.Dict.{bytes_eq, bytes_eq_iff}
use libjustasic.Modules.{Module}
use libjustasic.Modules.Unloading.{
  Result, returns, undefined_behaviour, out_of_fuel, ◌>>=◌, find_named, first_of, next_of,
}
use libjustasic.Modules.Unloading.Leaf.{Distinct}
use libjustasic.Modules.Unloading.Kept.{Kept, all_kept, keep, leave, Kept-All}

-- The run is not cut off by its bound.
abbrev pub Settled : {A : Type 0} → Result A → Type 0
Settled r = r ≢ out_of_fuel

pub Settled-cases :
    {A : Type 0} (r : Result A)
    → Settled r
    → ((a : A) × (r ≡ returns a)) ⊎ (r ≡ undefined_behaviour)
Settled-cases (returns a) s = inl (a, refl)
Settled-cases undefined_behaviour s = inr refl
Settled-cases out_of_fuel s = absurd (s refl)

pub bind-Settled :
    {A B : Type 0} (r : Result A) (f : A → Result B)
    → Settled r
    → ((a : A) → r ≡ returns a → Settled (f a))
    → Settled (r >>= f)
bind-Settled (returns a) f s k = k a refl
bind-Settled undefined_behaviour f s k = λ e. cc
bind-Settled out_of_fuel f s k = absurd (s refl)

-- The nodes from a name on.
abbrev pub from_name : List Module → Bytes → ℕ
from_name [] n = 0
from_name (m ∷ ms) n = if bytes_eq m.name n then suc (length ms) else from_name ms n

abbrev pub from_place : List Module → Option Bytes → ℕ
from_place ms none = 0
from_place ms (some n) = from_name ms n

from_name-length : (ms : List Module) (n : Bytes) → from_name ms n ≤ length ms
from_name-length [] n = omega arith
from_name-length (m ∷ ms) n = ground (arith, from_name-length ms n)

from_name-none :
    (ms : List Module) (n : Bytes) → All (λ m. bytes_eq n m.name ≡ false) ms → from_name ms n ≡ 0
from_name-none [] n h = refl
from_name-none (m ∷ ms) n h = elim (Bool-cases (bytes_eq m.name n)) [
  | inl e ↦
      absurd
        (let q = (bytes_eq_iff n m.name).1 (sym ((bytes_eq_iff m.name n).0 e)) in let d = h.0 in cc)
  | inr e ↦ rw e (from_name-none ms n h.1)
]

Kept-length : {xs ys : List Module} → Kept xs ys → length xs ≤ length ys
Kept-length (all_kept ms) = omega arith
Kept-length (keep m k) = let l = Kept-length k in omega arith
Kept-length (leave m k) = let l = Kept-length k in omega arith

pub from_name-Kept :
    {xs ys : List Module} (n : Bytes) → Kept xs ys → Distinct ys → from_name xs n ≤ from_name ys n
unfolding Distinct
from_name-Kept n (all_kept ms) d = omega arith
from_name-Kept n (keep {kept = xs} {modules = ys} m k) d = elim (Bool-cases (bytes_eq m.name n)) [
  | inl e ↦ rw e (let l = Kept-length k in omega arith)
  | inr e ↦ rw e (from_name-Kept n k d.1)
]
from_name-Kept n (leave {kept = xs} {modules = ys} m k) d = elim (Bool-cases (bytes_eq m.name n)) [
  | inl e ↦
      let away =
        subst (λ k. All (λ (x : Module). bytes_eq k x.name ≡ false) ys)
          ((bytes_eq_iff m.name n).0 e) d.0 in
      let none_left = from_name-none xs n (Kept-All (λ x. bytes_eq n x.name ≡ false) k away) in
      rw none_left (omega arith)
  | inr e ↦ rw e (from_name-Kept n k d.1)
]

-- What the names of all nodes have, the name of the next one has.
AllNext : (Bytes → Type 0) → Option Bytes → Type 0
AllNext P none = Unit
AllNext P (some n) = P n

first_of-All :
    (P : Bytes → Type 0) (ms : List Module) → All (λ m. P m.name) ms → AllNext P (first_of ms)
unfolding AllNext
first_of-All P [] h = tt
first_of-All P (m ∷ ms) h = h.0

next_of-All :
    (P : Bytes → Type 0) (ms : List Module) (it : Bytes)
    → All (λ m. P m.name) ms
    → AllNext P (next_of ms it)
unfolding AllNext next_of
next_of-All P [] it h = tt
next_of-All P (m ∷ ms) it h = elim (Bool-cases (bytes_eq m.name it)) [
  | inl e ↦ rw e (first_of-All P ms h.1)
  | inr e ↦ rw e (next_of-All P ms it h.1)
]

-- A place that is not at the first node.
from_place-cons :
    (m : Module) (ms : List Module) (o : Option Bytes)
    → AllNext (λ n. bytes_eq m.name n ≡ false) o
    → from_place (m ∷ ms) o ≡ from_place ms o
unfolding AllNext
from_place-cons m ms none h = refl
from_place-cons m ms (some n) h = rw h refl

pub from_place-length : (ms : List Module) (o : Option Bytes) → from_place ms o ≤ length ms
from_place-length ms none = omega arith
from_place-length ms (some n) = from_name-length ms n

pub next_of-from_place :
    (ms : List Module) (it : Bytes) (m : Module)
    → Distinct ms
    → find_named ms it ≡ some m
    → from_place ms (next_of ms it) < from_name ms it
unfolding Distinct find_named next_of
next_of-from_place [] it m d h = absurd (cc)
next_of-from_place (x ∷ ms) it m d h = elim (Bool-cases (bytes_eq x.name it)) [
  | inl e ↦
      let same =
        from_place-cons x ms (first_of ms) (first_of-All (λ n. bytes_eq x.name n ≡ false) ms d.0) in
      let short = from_place-length ms (first_of ms) in rw e (rw same (omega arith))
  | inr e ↦
      let same =
        from_place-cons x ms (next_of ms it)
          (next_of-All (λ n. bytes_eq x.name n ≡ false) ms it d.0) in
      let rest = next_of-from_place ms it m d.1 (rw e at h) in rw e (rw same rest)
]
