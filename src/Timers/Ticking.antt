-- ===== src/Timers/Ticking.antt =====
-- What `TickTimers` does to the timers.
use libjustasic.Base.{
  ℕ, suc, ◌≡◌, refl, true, false, List, [], ◌∷◌, ◌++◌, Option, none, some, leb, ◌==◌, get_elem?, ap,
  ◌∙◌, ==_refl,
}
use libjustasic.Timers.{
  Timer, TimerHandler, update, find, delist_timer, destruct, tick_one, tick_loop, tick_timers,
}

one_shot_round :
    (thetime now t : ℕ) (timer : Timer) (h : TimerHandler)
    → h.heap t ≡ some timer
    → leb timer.time_out thetime ≡ true
    → timer.repeat ≡ false
    → tick_one thetime now t h ≡ some (destruct t (record h { ticked = h.ticked ++ t ∷ [] }))
unfolding tick_one
one_shot_round thetime now t timer h live due once = rw (live, tick_one, due, once) refl

pub round :
    (thetime : ℕ) (now : ℕ → ℕ) (rounds i t : ℕ) (h h' : TimerHandler) (r : Option TimerHandler)
    → get_elem? h.slots i ≡ some t
    → tick_one thetime (now i) t h ≡ some h'
    → tick_loop thetime now rounds (suc i) h' ≡ r
    → tick_loop thetime now (suc rounds) i h ≡ r
unfolding tick_loop
round thetime now rounds i t h h' r at one rest = rw (at, tick_loop, one) rest

deleted_round :
    (thetime : ℕ) (now : ℕ → ℕ) (rounds i t : ℕ) (h : TimerHandler)
    → get_elem? h.slots i ≡ some t
    → h.heap t ≡ none
    → tick_loop thetime now (suc rounds) i h ≡ none
unfolding tick_loop tick_one
deleted_round thetime now rounds i t h at dead = rw (at, tick_loop, dead, tick_one) refl

destruct_first :
    (a b c : ℕ) (heap : ℕ → Option Timer) (past : List ℕ)
    → destruct a (record { slots = a ∷ b ∷ c ∷ []; size = 3; heap = heap; ticked = past })
      ≡ record { slots = b ∷ c ∷ c ∷ []; size = 2; heap = update heap a none; ticked = past }
unfolding destruct delist_timer find
destruct_first a b c heap past = rw (==_refl a, delist_timer) refl

destruct_second :
    (b c : ℕ) (heap : ℕ → Option Timer) (past : List ℕ)
    → (b == c) ≡ false
    → destruct c (record { slots = b ∷ c ∷ c ∷ []; size = 2; heap = heap; ticked = past })
      ≡ record { slots = b ∷ c ∷ c ∷ []; size = 1; heap = update heap c none; ticked = past }
unfolding destruct delist_timer find
destruct_second b c heap past bc = rw (==_refl c, bc, find, delist_timer) refl

-- When the first of three timers and the last are due and do not repeat, `TickTimers` ends in the
-- use of a deleted timer: the first round moves the others down and the loop passes over the second,
-- and the last is met again after it was deleted.
pub tick_timers-deleted :
    (thetime : ℕ) (now : ℕ → ℕ) (a b c : ℕ) (first last : Timer) (heap : ℕ → Option Timer)
    (past : List ℕ)
    → (a == c) ≡ false
    → (b == c) ≡ false
    → heap a ≡ some first
    → heap c ≡ some last
    → leb first.time_out thetime ≡ true
    → leb last.time_out thetime ≡ true
    → first.repeat ≡ false
    → last.repeat ≡ false
    → tick_timers thetime now
        (record { slots = a ∷ b ∷ c ∷ []; size = 3; heap = heap; ticked = past })
      ≡ none
unfolding tick_timers
tick_timers-deleted thetime now a b c first last heap past ac bc fa lc da dc ra rc =
    let h0 : TimerHandler = record {
      slots = a ∷ b ∷ c ∷ [];
      size = 3;
      heap = heap;
      ticked = past;
    } in
    let h1 : TimerHandler = record {
      slots = b ∷ c ∷ c ∷ [];
      size = 2;
      heap = update heap a none;
      ticked = past ++ a ∷ [];
    } in
    let h2 : TimerHandler = record {
      slots = b ∷ c ∷ c ∷ [];
      size = 1;
      heap = update (update heap a none) c none;
      ticked = (past ++ a ∷ []) ++ c ∷ [];
    } in
    let one : tick_one thetime (now 0) a h0 ≡ some h1 =
      one_shot_round thetime (now 0) a first h0 fa da ra
      ∙ ap some (destruct_first a b c heap (past ++ a ∷ [])) in
    let live : h1.heap c ≡ some last = rw ac lc in
    let two : tick_one thetime (now 1) c h1 ≡ some h2 =
      one_shot_round thetime (now 1) c last h1 live dc rc
      ∙ ap some (destruct_second b c h1.heap ((past ++ a ∷ []) ++ c ∷ []) bc) in
    let dead : h2.heap c ≡ none = rw (==_refl c) refl in
    round thetime now 2 0 a h0 h1 none refl one
      (round thetime now 1 1 c h1 h2 none refl two (deleted_round thetime now 0 2 c h2 refl dead))
