-- ===== src/Flags/Laws.antt =====
-- The laws of the flag sets.
use libjustasic.Base.{
  ℕ, zero, suc, ◌+◌, ◌≤◌, ◌<◌, ◌≡◌, refl, Bool, true, false, List, [], ◌∷◌, ◌==◌, if◌then◌else◌,
  length, get_or, set, replicate, arith, length-set, All, ltb, ltb→lt, Bool-cases, inl, inr,
}
use libjustasic.Flags.{
  ◌>>=◌, ok, undefined_behaviour, out_of_range, ok-through, Bits, set_flag, remove_flag,
  remove_flags, has_flag, flag_count, clear_flags,
}

pub get_or-set :
    (bits : Bits) (v w : ℕ) (b : Bool)
    → v < length bits
    → get_or (set bits v b) w false ≡ (if v == w then b else get_or bits w false)
get_or-set [] v w b h = absurd (omega arith)
get_or-set (x ∷ bits) zero zero b h = ground arith
get_or-set (x ∷ bits) zero (suc w) b h = ground arith
get_or-set (x ∷ bits) (suc v) zero b h = ground arith
get_or-set (x ∷ bits) (suc v) (suc w) b h = ground (arith, get_or-set bits v w b)

-- Inside the set no member fails.
module _ (bits : Bits) (v : ℕ) (inside : v < length bits) where
  pub set_flag_in : set_flag bits v ≡ ok (set bits v true)
  unfolding set_flag
  set_flag_in = ground arith

  pub has_flag-set : has_flag (set bits v true) v ≡ ok true
  unfolding has_flag
  has_flag-set = ground (arith, get_or-set bits v v true, length-set bits v true)

  pub remove_flag_in : remove_flag bits v ≡ ok (set bits v false)
  unfolding remove_flag
  remove_flag_in = ground arith

  pub has_flag_in : has_flag bits v ≡ ok (get_or bits v false)
  unfolding has_flag
  has_flag_in = ground arith

module _ (bits : Bits) (v : ℕ) (outside : length bits ≤ v) where
  pub set_flag_out : set_flag bits v ≡ undefined_behaviour
  unfolding set_flag
  set_flag_out = ground arith

  pub has_flag_out : has_flag bits v ≡ out_of_range
  unfolding has_flag
  has_flag_out = ground arith

-- A flag inside the set is set (or removed) and no other flag changes; setting or removing one
-- outside is undefined behaviour.
pub has_flag-set_flag :
    (bits : Bits) (v w : ℕ)
    → ((set_flag bits v >>= λ bits'. has_flag bits' w) ≡ (
        if ltb v (length bits)
        then (if v == w then ok true else has_flag bits w)
        else undefined_behaviour))
      × ((remove_flag bits v >>= λ bits'. has_flag bits' w) ≡ (
          if ltb v (length bits)
          then (if v == w then ok false else has_flag bits w)
          else undefined_behaviour))
unfolding set_flag remove_flag has_flag
has_flag-set_flag bits v w = elim (Bool-cases (ltb v (length bits))) [
  | inl e ↦
      let inside = ltb→lt v (length bits) e in
      (
        rw e (ground (arith, get_or-set bits v w true, length-set bits v true)),
        rw e (ground (arith, get_or-set bits v w false, length-set bits v false)),
      )
  | inr e ↦ (rw e refl, rw e refl)
]

set_flag-keeps :
    (bits : Bits) (v w : ℕ) (bits' : Bits)
    → set_flag bits v ≡ ok bits'
    → has_flag bits w ≡ ok true
    → has_flag bits' w ≡ ok true
unfolding set_flag has_flag
set_flag-keeps bits v w bits' e h = ground (arith, get_or-set bits v w true, length-set bits v true)

set_flag_self :
    (bits : Bits) (v : ℕ) (bits' : Bits) → set_flag bits v ≡ ok bits' → has_flag bits' v ≡ ok true
unfolding set_flag has_flag
set_flag_self bits v bits' e = ground (arith, get_or-set bits v v true, length-set bits v true)

remove_flags-keeps :
    (values : List ℕ) (bits bits' : Bits) (w : ℕ)
    → remove_flags bits values ≡ ok bits'
    → has_flag bits w ≡ ok true
    → has_flag bits' w ≡ ok true
unfolding remove_flags
remove_flags-keeps [] bits bits' w e h = ground arith
remove_flags-keeps (v ∷ values) bits bits' w e h =
    let (mid, first, later) = ok-through _ (set_flag bits v) e in
    remove_flags-keeps values mid bits' w later (set_flag-keeps bits v w mid first h)

remove_flags-All :
    (values : List ℕ) (bits bits' : Bits)
    → remove_flags bits values ≡ ok bits'
    → All (λ v. has_flag bits' v ≡ ok true) values
unfolding remove_flags
remove_flags-All [] bits bits' e = tt
remove_flags-All (v ∷ values) bits bits' e =
    let (mid, first, later) = ok-through _ (set_flag bits v) e in
    (
      remove_flags-keeps values mid bits' v later (set_flag_self bits v mid first),
      remove_flags-All values mid bits' later,
    )

-- `remove_flags` removes nothing: a flag that was set stays set, and every flag that was to be
-- removed is set afterwards.
remove_flags-sets :
    (values : List ℕ) (bits bits' : Bits) (w : ℕ)
    → remove_flags bits values ≡ ok bits'
    → has_flag bits w ≡ ok true
    → (has_flag bits' w ≡ ok true) × All (λ v. has_flag bits' v ≡ ok true) values
remove_flags-sets values bits bits' w e h =
    (remove_flags-keeps values bits bits' w e h, remove_flags-All values bits bits' e)

flag_count-set :
    (bits : Bits) (v : ℕ)
    → v < length bits
    → flag_count (set bits v true) ≡ (if get_or bits v false then 0 else 1) + flag_count bits
unfolding flag_count
flag_count-set [] v h = absurd (omega arith)
flag_count-set (b ∷ bits) zero h = ground arith
flag_count-set (b ∷ bits) (suc v) h = ground (arith, flag_count-set bits v (omega arith))

flag_count-replicate : (n : ℕ) → flag_count (replicate n false) ≡ 0
unfolding flag_count
flag_count-replicate zero = refl
flag_count-replicate (suc n) = omega (arith, flag_count-replicate n)

-- `flag_count` after `set_flag` is one more unless the flag was set already, and 0 after
-- `clear_flags`.
flag_count_lem :
    (bits : Bits) (v : ℕ) (bits' : Bits)
    → set_flag bits v ≡ ok bits'
    → (flag_count bits' ≡ (if get_or bits v false then 0 else 1) + flag_count bits)
      × (flag_count (clear_flags bits) ≡ 0)
unfolding set_flag clear_flags
flag_count_lem bits v bits' e =
    (ground (arith, flag_count-set bits v), flag_count-replicate (length bits))
