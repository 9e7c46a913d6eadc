-- ===== src/Base/Dict.antt =====
-- `std::map` with texts for keys, as an association list.
use mathlib.Core.Path.{◌≡◌, refl, subst}
use mathlib.Core.Logic.{◌↔◌, inl, inr}
use mathlib.Core.Bool.{Bool, true, false, ◌&&◌}
use mathlib.Core.Option.{Option, none, some}
use mathlib.Core.List.{List, [], ◌∷◌}
use native.Mathlib.Omega.{arith}
use libjustasic.Base.Tests.{◌==◌, if◌then◌else◌, Bool-cases}
use libjustasic.Base.Text.{Bytes}
use libjustasic.Base.Lists.{All}

-- `operator==` of two `std::string`.
unfoldable pub bytes_eq : Bytes → Bytes → Bool
bytes_eq [] [] = true
bytes_eq [] (d ∷ t) = false
bytes_eq (c ∷ s) [] = false
bytes_eq (c ∷ s) (d ∷ t) = c == d && bytes_eq s t

pub bytes_eq_iff : (s t : Bytes) → (bytes_eq s t ≡ true) ↔ (s ≡ t)
unfolding bytes_eq
bytes_eq_iff [] [] = ((λ h. refl), (λ e. refl))
bytes_eq_iff [] (d ∷ t) = ((λ h. cc), (λ e. cc))
bytes_eq_iff (c ∷ s) [] = ((λ h. cc), (λ e. cc))
bytes_eq_iff (c ∷ s) (d ∷ t) =
    ((λ h. ground (arith, bytes_eq_iff s t)), (λ e. ground (arith, bytes_eq_iff s t)))

abbrev pub Dict {ℓ} : Type ℓ → Type ℓ
Dict V = List (Bytes × V)

module _ {ℓ} {V : Type ℓ} where
  -- `find`, and `at` where it does not throw.
  unfoldable pub lookup : Bytes → Dict V → Option V
  lookup k [] = none
  lookup k ((j, v) ∷ m) = if bytes_eq j k then some v else lookup k m

  -- `m[k] = v`
  unfoldable pub insert : Bytes → V → Dict V → Dict V
  insert k v [] = (k, v) ∷ []
  insert k v ((j, w) ∷ m) = if bytes_eq j k then (j, v) ∷ m else (j, w) ∷ insert k v m

  pub lookup-insert :
      (k j : Bytes) (v : V) (m : Dict V)
      → lookup j (insert k v m) ≡ (if bytes_eq k j then some v else lookup j m)
  unfolding lookup insert
  lookup-insert k j v [] = refl
  lookup-insert k j v ((i, w) ∷ m) =
      ground (arith, bytes_eq_iff k j, bytes_eq_iff i k, bytes_eq_iff i j, lookup-insert k j v m)

  pub lookup-insert_self :
      (k j : Bytes) (v : V) (m : Dict V) → bytes_eq k j ≡ true → lookup j (insert k v m) ≡ some v
  lookup-insert_self k j v m h = rw (lookup-insert k j v m, h) refl

  pub lookup-insert_ne :
      (k j : Bytes) (v : V) (m : Dict V)
      → bytes_eq k j ≡ false
      → lookup j (insert k v m) ≡ lookup j m
  lookup-insert_ne k j v m h = rw (lookup-insert k j v m, h) refl

  -- A property of every key.
  abbrev pub Keys {κ} : (Bytes → Type κ) → Dict V → Type κ
  Keys P = All (λ e. P e.0)

  pub lookup-none :
      (P : Bytes → Type 0) (k : Bytes) (m : Dict V) → Keys P m → ¬ P k → lookup k m ≡ none
  unfolding lookup
  lookup-none P k [] h n = refl
  lookup-none P k ((j, v) ∷ m) h n = elim (Bool-cases (bytes_eq j k)) [
    | inl e ↦ absurd (n (subst P ((bytes_eq_iff j k).0 e) h.0))
    | inr e ↦ rw e (lookup-none P k m h.1 n)
  ]
