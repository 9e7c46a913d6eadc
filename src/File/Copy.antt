-- ===== src/File/Copy.antt =====
-- `CopyFile` and `GetHighestSize`.
use libjustasic.Base.{
  ℕ, zero, suc, ◌+◌, ◌*◌, ◌/◌, ◌^◌, ◌≡◌, ◌≤◌, ◌<◌, refl, Bool, true, false, List, [], ◌∷◌, ◌++◌,
  Option, none, some, if◌then◌else◌, ltb, ◌==◌, length, take, drop, arith, length-take, length-drop,
  take-append-drop, drop-drop, ap, sym, ◌∙◌, Bool-cases, inl, inr, append-nil, take_all, min,
  get_elem?, Option-cases, passes_below, passes_below_lem,
}
use libjustasic.Base.Text.{Bytes}
use libjustasic.File.{highest_loop, get_highest_size, sizes}

-- What `dest->Write` is given: a block of the buffer, or a length beyond it after a failed read.
pub data Written : Type 0 where
  block : Bytes → Written
  overrun : Written

-- The loop of `CopyFile` over the answers of the reads; `none` is the answer -1.
pub copy_loop : ℕ → (ℕ → Option Bytes) → ℕ → Option (List Written)
copy_loop zero answer k = none
copy_loop (suc fuel) answer k =
    let rest = copy_loop fuel answer (suc k) in
    elim (answer k) [
      | none ↦ some (overrun ∷ [])
      | some b ↦
          if length b == 1024
          then (elim rest [ none ↦ none | some ws ↦ some (block b ∷ ws) ])
          else some (block b ∷ [])
    ]

-- `CopyFile`; its answer is false only without a file.
pub copy_file : ℕ → Bool → Bool → (ℕ → Option Bytes) → Option (Bool × List Written)
unfolding copy_loop
copy_file fuel dest src answer =
    if dest
    then (if src
        then (elim (copy_loop fuel answer 0) [ none ↦ none | some ws ↦ some (true, ws) ])
        else some (false, []))
    else some (false, [])

-- What arrives in the destination.
abbrev pub arrived : List Written → Bytes
arrived [] = []
arrived (block b ∷ ws) = b ++ arrived ws
arrived (overrun ∷ ws) = arrived ws

-- The reads of a regular file.
abbrev pub blocks : Bytes → ℕ → Option Bytes
blocks content k = some (take 1024 (drop (k * 1024) content))

full_block : (a b : ℕ) → a ≡ min 1024 b → (a == 1024) ≡ true → 1024 ≤ b
full_block a b h e = ground arith

short_block : (a b : ℕ) → a ≡ min 1024 b → (a == 1024) ≡ false → b ≤ 1024
short_block a b h e = ground arith

copy_loop_lem :
    (fuel : ℕ) (content : Bytes) (k : ℕ)
    → length content < (k + fuel) * 1024
    → k * 1024 ≤ length content
    → (ws : List Written) × (copy_loop fuel (blocks content) k ≡ some ws)
      × (arrived ws ≡ drop (k * 1024) content)
unfolding copy_loop
copy_loop_lem zero content k h l = absurd (omega arith)
copy_loop_lem (suc fuel) content k h l =
    let part = take 1024 (drop (k * 1024) content) in
    let size = length-take 1024 (drop (k * 1024) content) in
    let left = length-drop (k * 1024) content in
    elim (Bool-cases (length part == 1024)) [
      | inl e ↦
          let (ws, run, all) =
            copy_loop_lem fuel content (suc k) (omega arith)
              (omega (arith, left, full_block _ _ size e)) in
          (
            block part ∷ ws,
            rw e (rw run refl),
            ap (λ t. part ++ t)
                  (all
                    ∙ ap (λ n. drop n content) (omega arith)
                    ∙ sym (drop-drop 1024 (k * 1024) content))
                ∙ take-append-drop 1024 (drop (k * 1024) content),
          )
      | inr e ↦ (
        block part ∷ [],
        rw e refl,
        append-nil part ∙ take_all 1024 (drop (k * 1024) content) (short_block _ _ size e),
      )
    ]

-- `CopyFile` of a regular file returns, after one round for each started block of 1024 bytes, and
-- what it wrote is the content, also where the length is a multiple of 1024.
pub copy_file-arrived :
    (content : Bytes)
    → (ws : List Written) × (copy_file (length content / 1024 + 1) true true (blocks content)
        ≡ some (true, ws))
      × (arrived ws ≡ content)
unfolding copy_file
copy_file-arrived content =
    let (ws, run, all) =
      copy_loop_lem (length content / 1024 + 1) content 0 (omega arith) (omega arith) in
    (ws, rw run refl, all)

-- A read that fails in a later round is not noticed: `CopyFile` answers true, and it writes from
-- beyond its buffer.
copy_file-overrun :
    (content : Bytes) (answer : ℕ → Option Bytes)
    → 1024 ≤ length content
    → answer 0 ≡ some (take 1024 content)
    → answer 1 ≡ none
    → copy_file 2 true true answer ≡ some (true, block (take 1024 content) ∷ overrun ∷ [])
unfolding copy_file copy_loop
copy_file-overrun content answer l first second =
    let full : (length (take 1024 content) == 1024) ≡ true =
      ground (arith, length-take 1024 content) in
    rw (first, second, full) refl

ltb-false : (a b : ℕ) → b ≤ a → ltb a b ≡ false
ltb-false a b h = ground arith

-- What `fuel` further rounds can bring down to 1024.
bound : ℕ → ℕ
bound zero = 1025
bound (suc n) = bound n * 1024

highest_loop_lem :
    (fuel size si : ℕ)
    → size < bound fuel
    → (n rest : ℕ) × (highest_loop (suc fuel) size si ≡ some (n, rest))
      × (n ≤ si + fuel)
      × (rest ≤ 1024)
unfolding highest_loop bound
highest_loop_lem zero size si h =
    (si, size, rw (ltb-false 1024 size (omega arith)) refl, omega arith, omega arith)
highest_loop_lem (suc fuel) size si h = elim (Bool-cases (ltb 1024 size)) [
  | inl e ↦
      let (n, rest, run, few, small) = highest_loop_lem fuel (size / 1024) (si + 1) (omega arith) in
      (n, rest, rw e run, omega arith, small)
  | inr e ↦ (si, size, rw e refl, omega arith, ground (arith, e))
]

has_unit : ℕ → Bool
has_unit n = elim (get_elem? sizes n) [ none ↦ false | some unit ↦ true ]

units_table : passes_below has_unit 7 ≡ true
unfolding passes_below has_unit
units_table = refl

unit_at : (n : ℕ) → n ≤ 6 → (unit : Bytes) × (get_elem? sizes n ≡ some unit)
unfolding has_unit
unit_at n h = elim (Option-cases (get_elem? sizes n)) [
  | inl e ↦
      let t = passes_below_lem has_unit 7 n units_table (omega arith) in
      absurd (ground (arith, t, e))
  | inr found ↦ found
]

-- For a 64-bit size the loop of `GetHighestSize` ends at one of the first seven units, with at most
-- 1024 of them: no unit is read past the table, and "(hello future!)" is never the answer.
get_highest_size-unit :
    (size : ℕ)
    → size < 2 ^ 64
    → (n rest : ℕ) × (unit : Bytes) × (get_highest_size size ≡ some (unit, rest))
      × (get_elem? sizes n ≡ some unit)
      × (n ≤ 6)
      × (rest ≤ 1024)
unfolding get_highest_size bound
get_highest_size-unit size h =
    let (n, rest, run, few, small) = highest_loop_lem 6 size 0 (omega arith) in
    let (unit, at) = unit_at n few in
    let near : ltb 72 n ≡ false = ltb-false 72 n (omega arith) in
    (n, rest, unit, rw (run, get_highest_size) (rw (near, at) refl), at, few, small)
