-- ===== src/Modules/Unloading/Ranked.antt =====
-- `DeleteModule` where the dependencies form no cycle.
use libjustasic.Base.{
  ℕ, zero, suc, ◌+◌, ◌≡◌, ◌⊎◌, ◌<◌, ◌≤◌, sym, subst, ap, ◌∙◌, Bool, List, [], ◌∷◌, Option, none,
  some, length, arith, All, Bool-cases, Option-cases, inl, inr,
}
use libjustasic.Base.Text.{Bytes}
use libjustasic.Base.Dict.{bytes_eq, bytes_eq_iff}
use libjustasic.Modules.{Module}
use libjustasic.Modules.Unloading.{
  returns, undefined_behaviour, find_named, first_of, next_of, Deleter, delete_dependent,
  delete_loop, delete_module,
}
use libjustasic.Modules.Unloading.Leaf.{Distinct}
use libjustasic.Modules.Unloading.Kept.{
  Kept, Kept-All, Distinct-Kept, Takes, outcome-Kept, delete_module-Outcome, delete_dependent-Kept,
}
use libjustasic.Modules.Unloading.Walk.{
  Settled, Settled-cases, bind-Settled, from_place, from_name-Kept, from_place-length,
  next_of-from_place,
}

found-All :
    (P : Module → Type 0) (ms : List Module) (n : Bytes) (m : Module)
    → All P ms
    → find_named ms n ≡ some m
    → P m × (m.name ≡ n)
unfolding find_named
found-All P [] n m h f = absurd (cc)
found-All P (x ∷ ms) n m h f = elim (Bool-cases (bytes_eq x.name n)) [
  | inl e ↦
      let q : some x ≡ some m = rw e at f in
      let p : x ≡ m = cc in
      (subst P p h.0, ap (λ (y : Module). y.name) (sym p) ∙ (bytes_eq_iff x.name n).0 e)
  | inr e ↦ found-All P ms n m h.1 (rw e at f)
]

from_place-Kept :
    (xs ys : List Module) (o : Option Bytes)
    → Kept xs ys
    → Distinct ys
    → from_place xs o ≤ from_place ys o
from_place-Kept xs ys none k d = omega arith
from_place-Kept xs ys (some n) k d = from_name-Kept n k d

module _ (rank : Bytes → ℕ) (top_rank : ℕ) where
  -- Every module ranks above what it depends on, and none ranks above the top.
  abbrev pub IsRanked : Module → Type 0
  IsRanked m = All (λ d. rank d < rank m.name) m.dependencies × (rank m.name ≤ top_rank)

  -- A deletion of a module above a rank settles on every part of the list.
  abbrev SettlesAbove : Deleter → ℕ → Type 0
  SettlesAbove del r =
      (m : Bytes) (ms : List Module)
      → r < rank m
      → rank m ≤ top_rank
      → Distinct ms
      → All IsRanked ms
      → Settled (del ms m)

  delete_dependent-Settled :
      (del : Deleter) (n mod_ : Bytes) (depends : List Bytes) (ms : List Module)
      → Takes del
      → SettlesAbove del (rank n)
      → All (λ d. rank d < rank mod_) depends
      → rank mod_ ≤ top_rank
      → Distinct ms
      → All IsRanked ms
      → Settled (delete_dependent del n mod_ depends ms)
  unfolding delete_dependent
  delete_dependent-Settled del n mod_ [] ms takes above below top d r = λ e. cc
  delete_dependent-Settled del n mod_ (x ∷ depends) ms takes above below top d r =
      elim (Bool-cases (bytes_eq x n)) [
        | inl e ↦
            let higher = subst (λ k. rank k < rank mod_) ((bytes_eq_iff x n).0 e) below.0 in
            rw (e, delete_dependent)
              (bind-Settled (del ms mod_) _ (above mod_ ms higher top d r) (λ (done, ms1) q.
                let k = takes ms ms1 mod_ done q in
                delete_dependent-Settled del n mod_ depends ms1 takes above below.1 top
                  (Distinct-Kept k d) (Kept-All IsRanked k r)))
        | inr e ↦
            rw (e, delete_dependent)
              (delete_dependent-Settled del n mod_ depends ms takes above below.1 top d r)
      ]

  delete_loop-Settled :
      (rounds : ℕ) (del : Deleter) (n : Bytes) (it : Option Bytes) (ms : List Module)
      → Takes del
      → SettlesAbove del (rank n)
      → Distinct ms
      → All IsRanked ms
      → from_place ms it < rounds
      → Settled (delete_loop rounds del n it ms)
  unfolding delete_loop
  delete_loop-Settled zero del n it ms takes above d r few = absurd (omega arith)
  delete_loop-Settled (suc rounds) del n none ms takes above d r few = λ e. cc
  delete_loop-Settled (suc rounds) del n (some it) ms takes above d r few =
      elim (Option-cases (find_named ms it)) [
        | inl e ↦ rw (e, delete_loop) (λ q. cc)
        | inr (m, e) ↦
            let ((below, low), name) = found-All IsRanked ms it m r e in
            let ranks = subst (λ k. All (λ x. rank x < rank k) m.dependencies) name below in
            let top = subst (λ k. rank k ≤ top_rank) name low in
            let further = next_of-from_place ms it m d e in
            rw (e, delete_loop)
              (bind-Settled (delete_dependent del n it m.dependencies ms) _
                (delete_dependent-Settled del n it m.dependencies ms takes above ranks top d r)
                (λ ms1 q.
                  let k = delete_dependent-Kept del n it m.dependencies ms ms1 takes q in
                  let nearer = from_place-Kept ms1 ms (next_of ms it) k d in
                  delete_loop-Settled rounds del n (next_of ms it) ms1 takes above
                    (Distinct-Kept k d) (Kept-All IsRanked k r) (omega arith)))
      ]

  delete_module-Settled :
      (terminates : Bytes → Bool) (fuel : ℕ) (ms : List Module) (n : Bytes)
      → Distinct ms
      → All IsRanked ms
      → rank n ≤ top_rank
      → top_rank < rank n + fuel
      → Settled (delete_module terminates fuel ms n)
  unfolding delete_module
  delete_module-Settled terminates zero ms n d r low high = absurd (omega arith)
  delete_module-Settled terminates (suc fuel) ms n d r low high =
      elim (Option-cases (find_named ms n)) [
        | inl e ↦ rw (e, delete_module) (λ q. cc)
        | inr (m, e) ↦ elim (Bool-cases m.is_open) [
          | inl o ↦
              let del = delete_module terminates fuel in
              let takes : Takes del = λ a b n' d' q.
                outcome-Kept n' a b d' (delete_module-Outcome terminates fuel a b n' d' q) in
              let above : SettlesAbove del (rank n) = λ m' ms' h l d' r'.
                delete_module-Settled terminates fuel ms' m' d' r' l (omega arith) in
              let near = from_place-length ms (first_of ms) in
              rw (e, o, delete_module)
                (bind-Settled (delete_loop (suc (length ms)) del n (first_of ms) ms) _
                  (delete_loop-Settled (suc (length ms)) del n (first_of ms) ms takes above d r
                    (omega arith))
                  (λ ms1 q w. cc))
          | inr o ↦ rw (e, o, delete_module) (λ q. cc)
        ]
      ]

  -- Where every module in the list ranks above those that it depends on, and at most at the top,
  -- and the names differ, `DeleteModule` comes to one of two ends, whatever is deleted on the way: it
  -- returns, or it reaches undefined behaviour, the use of an iterator whose element is erased. It
  -- never goes on for ever: the recursion is no deeper than from the rank of the module to the top.
  pub delete_module-IsRanked :
      (terminates : Bytes → Bool) (fuel : ℕ) (ms : List Module) (n : Bytes)
      → Distinct ms
      → All IsRanked ms
      → rank n ≤ top_rank
      → top_rank < rank n + fuel
      → ((r : Bool × List Module) × (delete_module terminates fuel ms n ≡ returns r))
        ⊎ (delete_module terminates fuel ms n ≡ undefined_behaviour)
  delete_module-IsRanked terminates fuel ms n d r low high =
      Settled-cases (delete_module terminates fuel ms n)
        (delete_module-Settled terminates fuel ms n d r low high)
