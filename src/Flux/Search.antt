-- ===== src/Flux/Search.antt =====
-- The searches of include/Flux.h from the end and for one of several characters; `none` is `npos`.
pub mod Laws
use libjustasic.Base.{
  ℕ, zero, suc, ◌+◌, ◌-◌, Bool, true, false, not, ◌||◌, List, [], ◌∷◌, Option, none, some, ltb, leb,
  ◌==◌, if◌then◌else◌, length, take, drop, min,
}
use libjustasic.Base.Text.{Bytes, codes, c_str, starts_with}
use libjustasic.Ci.{eq}
use libjustasic.Flux.{is_found}

-- Some character of the set agrees.
pub one_of : (ℕ → ℕ → Bool) → Bytes → ℕ → Bool
one_of eqc [] c = false
one_of eqc (d ∷ str) c = eqc c d || one_of eqc str c

abbrev pub up : Option ℕ → Option ℕ
up none = none
up (some i) = some (suc i)

module _ (p : ℕ → Bool) where
  pub first_where : Bytes → Option ℕ
  first_where [] = none
  first_where (c ∷ s) = if p c then some 0 else up (first_where s)

  pub last_where : Bytes → Option ℕ
  last_where [] = none
  last_where (c ∷ s) = elim (last_where s) [
    | some i ↦ some (suc i)
    | none ↦ if p c then some 0 else none
  ]

  -- From a position on, and up to it.
  pub first_from : Bytes → ℕ → Option ℕ
  unfolding first_where
  first_from s pos =
      if ltb pos (length s)
      then (elim (first_where (drop pos s)) [ none ↦ none | some i ↦ some (pos + i) ])
      else none

  pub last_until : Bytes → ℕ → Option ℕ
  unfolding last_where
  last_until s pos = last_where (take (suc pos) s)

-- `find_first_of` and `find_first_not_of`, and the same up to case.
pub find_first_of : Bytes → Bytes → ℕ → Option ℕ
unfolding first_from one_of
find_first_of s str pos = first_from (one_of ◌==◌ str) s pos

pub find_first_of_ci : Bytes → Bytes → ℕ → Option ℕ
unfolding first_from one_of
find_first_of_ci s str pos = first_from (one_of eq (c_str str)) (c_str s) pos

pub find_first_not_of : Bytes → Bytes → ℕ → Option ℕ
unfolding first_from one_of
find_first_not_of s str pos = first_from (λ c. not (one_of ◌==◌ str c)) s pos

pub find_first_not_of_ci : Bytes → Bytes → ℕ → Option ℕ
unfolding first_from one_of
find_first_not_of_ci s str pos = first_from (λ c. not (one_of eq (c_str str) c)) (c_str s) pos

-- `find_last_of` and `find_last_not_of`.
pub find_last_of : Bytes → Bytes → ℕ → Option ℕ
unfolding last_until one_of
find_last_of s str pos = last_until (one_of ◌==◌ str) s pos

pub find_last_of_ci : Bytes → Bytes → ℕ → Option ℕ
unfolding last_until one_of
find_last_of_ci s str pos = last_until (one_of eq (c_str str)) (c_str s) pos

pub find_last_not_of : Bytes → Bytes → ℕ → Option ℕ
unfolding last_until one_of
find_last_not_of s str pos = last_until (λ c. not (one_of ◌==◌ str c)) s pos

pub find_last_not_of_ci : Bytes → Bytes → ℕ → Option ℕ
unfolding last_until one_of
find_last_not_of_ci s str pos = last_until (λ c. not (one_of eq (c_str str) c)) (c_str s) pos

-- `rfind` from the last place where the text fits, downwards.
pub rfind_down : (ℕ → ℕ → Bool) → Bytes → Bytes → ℕ → Option ℕ
rfind_down eqc s str zero = if starts_with eqc str s then some 0 else none
rfind_down eqc s str (suc i) =
    let rest = rfind_down eqc s str i in
    if starts_with eqc str (drop (suc i) s) then some (suc i) else rest

pub rfind_by : (ℕ → ℕ → Bool) → Bytes → Bytes → ℕ → Option ℕ
unfolding rfind_down
rfind_by eqc s str pos =
    if ltb (length s) (length str)
    then none
    else rfind_down eqc s str (min (length s - length str) pos)

pub rfind : Bytes → Bytes → ℕ → Option ℕ
unfolding rfind_by
rfind s str pos = rfind_by ◌==◌ s str pos

pub rfind_ci : Bytes → Bytes → ℕ → Option ℕ
unfolding rfind_by
rfind_ci s str pos = rfind_by eq (c_str s) (c_str str) pos

-- `is_number_only` and `is_pos_number_only`
pub is_number_only : Bytes → Bool
unfolding find_first_not_of
is_number_only s = not (is_found (find_first_not_of s (codes "0123456789.-") 0))

pub is_pos_number_only : Bytes → Bool
unfolding find_first_not_of
is_pos_number_only s = not (is_found (find_first_not_of s (codes "0123456789.") 0))
