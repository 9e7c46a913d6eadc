-- ===== src/Placeholder.antt =====
-- Placeholders in configured texts: src/PlaceholderUtil.cpp.
pub mod Laws
mod Tests
use libjustasic.Base.{
  ℕ, zero, suc, ◌+◌, ◌-◌, ◌%◌, ◌^◌, ◌==◌, Bool, true, false, ◌||◌, List, [], ◌∷◌, ◌++◌, Option,
  none, some, ltb, if◌then◌else◌, length, get_elem?, map,
}
use libjustasic.Base.Text.{Bytes, codes}
use libjustasic.Base.Dict.{Dict, lookup, insert, bytes_eq}
use libjustasic.Ci.{equals_ci}
use libjustasic.Flux.{
  Run, ok, out_of_range, out_of_fuel, ◌>>=◌, substr, substr_from, find, is_found, split, toupper,
  tolower,
}

pub booltostr : Bytes → Bool
booltostr str =
    if equals_ci str (codes "true")
    then true
    else if equals_ci str (codes "yes")
    then true
    else if equals_ci str (codes "on")
    then true
    else if equals_ci str (codes "enable")
    then true
    else if equals_ci str (codes "enabled")
    then true
    else false

abbrev pub empty : Bytes → Bool
empty [] = true
empty (c ∷ s) = false

-- `values[i]` of a vector; an index past the end is undefined, and no call here makes one.
abbrev pub nth : List Bytes → ℕ → Run Bytes
nth values i = elim (get_elem? values i) [ none ↦ out_of_range | some v ↦ ok v ]

pub yesno : Bytes → Bytes → Run Bytes
yesno lvalue arg =
    if empty arg
    then ok (if booltostr lvalue then codes "yes" else codes "no")
    else if is_found (find arg (codes ",") 0)
    then (do values ← split arg (codes ","); nth values (if booltostr lvalue then 0 else 1))
    else ok (if booltostr lvalue then arg else codes "no")

-- A filter takes the value and the argument.
abbrev pub Filter : Type 0
Filter = Bytes → Bytes → Run Bytes

abbrev pub Filters : Type 0
Filters = Dict Filter

-- The initial contents of `Placeholder::filters`.
pub default_filters : Filters
default_filters =
    (codes "upper", λ lvalue arg. ok (toupper lvalue))
    ∷ (codes "lower", λ lvalue arg. ok (tolower lvalue))
    ∷ (codes "default_if_none", λ lvalue arg. ok (if empty lvalue then arg else lvalue))
    ∷ (codes "empty_if_none", λ lvalue arg. ok (if empty lvalue then [] else arg))
    ∷ (codes "empty_if_false", λ lvalue arg. ok (if booltostr lvalue then arg else []))
    ∷ (codes "yesno", λ lvalue arg. yesno lvalue arg)
    ∷ []

pub add_filter : Filters → Bytes → Filter → Filters
add_filter filters name filter = insert name filter filters

-- `std::map::at`
abbrev pub at {ℓ} : {V : Type ℓ} → Dict V → Bytes → Run V
at m k = elim (lookup k m) [ none ↦ out_of_range | some v ↦ ok v ]

-- What an `int` keeps of a size, read as a size again; `none` is -1, or nothing found. The increment
-- of the largest `int` is left out: it overflows.
pub as_int : Option ℕ → Option ℕ
as_int none = none
as_int (some n) =
    let low = n % 2 ^ 32 in
    if ltb low (2 ^ 31)
    then some low
    else if low == 2 ^ 32 - 1
    then none
    else some (2 ^ 64 - 2 ^ 32 + low)

-- The replacement of one placeholder.
pub replacement : Filters → Dict Bytes → Bytes → Run Bytes
replacement filters variables variable =
    if is_found (find variable (codes "|") 0)
    then (do
      values ← split variable (codes "|")
      rvalue ← nth values 1
      lvalue ← nth values 0
      elim (as_int (find rvalue (codes ":") 0)) [
        | some nextsplit ↦ do
          name ← substr rvalue 0 nextsplit
          argument ← substr rvalue (nextsplit + 2) (length rvalue - 1)
          filter ← at filters name
          value ← at variables lvalue
          filter value argument
        | none ↦ do filter ← at filters rvalue; value ← at variables lvalue; filter value []
      ])
    else (elim (lookup variable variables) [ none ↦ ok [] | some v ↦ ok v ])

-- The text after one round.
pub replaced : Bytes → ℕ → ℕ → Bytes → Run Bytes
replaced retstr pos pos2 [] = ok retstr
replaced retstr pos pos2 (c ∷ r) = do
  front ← substr retstr 0 pos
  back ← substr_from retstr (pos2 + 1)
  ok (front ++ (c ∷ r) ++ back)

-- The loop; each round starts from what the two searches found.
pub process_loop : ℕ → Filters → Dict Bytes → Bytes → Option ℕ → Option ℕ → Run Bytes
process_loop zero filters variables retstr p p2 = out_of_fuel
process_loop (suc fuel) filters variables retstr none p2 = ok retstr
process_loop (suc fuel) filters variables retstr (some pos) none = ok retstr
process_loop (suc fuel) filters variables retstr (some pos) (some pos2) =
    elim (ltb (length retstr) (pos + 1) || ltb (length retstr) (pos2 + 1)) [
      | true ↦ ok retstr
      | false ↦ do
        variable ← substr retstr (pos + 1) pos2
        r ← replacement filters variables variable
        next ← replaced retstr pos pos2 r
        process_loop fuel filters variables next (as_int (find next (codes "{") (pos + 1)))
            (as_int (find next (codes "}") (pos2 + 1)))
    ]

-- The first searches; without a `{` the second one is not made or starts at `npos` and finds nothing.
pub process_from : ℕ → Filters → Dict Bytes → Bytes → Run Bytes
process_from fuel filters variables str = elim (as_int (find str (codes "{") 0)) [
  | none ↦ ok str
  | some pos ↦
      process_loop fuel filters variables str (some pos) (as_int (find str (codes "}") pos))
]

-- `Placeholder::ProcessString` with a bound on the rounds of its loop.
pub process_string : ℕ → Filters → Bytes → Dict Bytes → Run Bytes
process_string fuel filters [] variables = ok []
process_string fuel filters (c ∷ str) [] = ok (c ∷ str)
process_string fuel filters (c ∷ str) (v ∷ variables) =
    process_from fuel filters (v ∷ variables) (c ∷ str)
