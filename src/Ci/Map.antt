-- ===== src/Ci/Map.antt =====
-- `Flux::insensitive_map` of include/Flux.h: `std::map` with texts for keys, in the order of
-- `ci::less`, which alone says which keys are the same.
pub mod Keys
pub mod Contents
use libjustasic.Base.{
  ℕ, ◌≡◌, refl, Bool, true, false, List, [], ◌∷◌, Option, none, some, if◌then◌else◌, All,
  Bool-cases, inl, inr, arith,
}
use libjustasic.Base.Text.{Bytes}
use libjustasic.Ci.{less, equals_ci}

-- The entries in their order.
abbrev pub InsensitiveMap {ℓ} : Type ℓ → Type ℓ
InsensitiveMap V = List (Bytes × V)

module _ {ℓ} {V : Type ℓ} where
  -- `find`, and the value where it is found.
  pub at_key : Bytes → InsensitiveMap V → Option V
  at_key k [] = none
  at_key k ((j, w) ∷ m) =
      let rest = at_key k m in if less j k then rest else if less k j then none else some w

  -- `m[k] = v`: a key that is there stays as it is.
  pub put_at : Bytes → V → InsensitiveMap V → InsensitiveMap V
  put_at k v [] = (k, v) ∷ []
  put_at k v ((j, w) ∷ m) =
      let rest = put_at k v m in
      if less j k then (j, w) ∷ rest else if less k j then (k, v) ∷ ((j, w) ∷ m) else (j, v) ∷ m

  -- `erase(k)`
  pub erase_key : Bytes → InsensitiveMap V → InsensitiveMap V
  erase_key k [] = []
  erase_key k ((j, w) ∷ m) =
      let rest = erase_key k m in
      if less j k then (j, w) ∷ rest else if less k j then (j, w) ∷ m else m

  -- Every key of the map lies behind `k`.
  abbrev pub Behind : Bytes → InsensitiveMap V → Type 0
  Behind k = All (λ e. less k e.0 ≡ true)

  -- The keys stand in a strict order, so none is there twice.
  unfoldable pub IsSorted : InsensitiveMap V → Type 0
  IsSorted [] = Unit
  IsSorted ((k, v) ∷ m) = Behind k m × IsSorted m
