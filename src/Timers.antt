-- ===== src/Timers.antt =====
-- Timers: src/Timer.cpp and include/Timer.h. An address is a number, and the answers of the clock
-- are parameters. `none` is the use of a timer that was deleted. A `Tick` adds and deletes no timers.
pub mod Ticking
pub mod Repeating
mod Tests
use libjustasic.Base.{
  ℕ, zero, suc, ◌+◌, ◌-◌, ◌≡◌, refl, Bool, true, false, List, [], ◌∷◌, ◌++◌, Option, none, some,
  if◌then◌else◌, leb, ◌==◌, length, get_elem?, take, drop,
}

pub record Timer : Type 0 where
  pub time_out : ℕ
  pub repeat_interval : ℕ
  pub repeat : Bool

-- `timers` as the slots of its array, of which the first `size` are its elements, the timers that
-- live, and the calls of `Tick` so far, in their order.
pub record TimerHandler : Type 0 where
  pub slots : List ℕ
  pub size : ℕ
  pub heap : ℕ → Option Timer
  pub ticked : List ℕ

abbrev pub update {ℓ} : {A : Type ℓ} → (ℕ → A) → ℕ → A → ℕ → A
update f i a j = if i == j then a else f j

-- `RegisterTimer`: `push_back`.
unfoldable pub register_timer : ℕ → TimerHandler → TimerHandler
register_timer t h = record h {
  slots = take h.size h.slots ++ t ∷ drop (h.size + 1) h.slots;
  size = h.size + 1;
}

-- The constructor, at a time, of a timer at an address.
unfoldable pub construct : ℕ → ℕ → ℕ → Bool → TimerHandler → TimerHandler
unfolding register_timer
construct now t timeout repeat h =
    let timer : Timer = record {
      time_out = if repeat then now + timeout else timeout;
      repeat_interval = if repeat then timeout else 0;
      repeat = repeat;
    } in
    register_timer t (record h { heap = update h.heap t (some timer) })

-- `std::find`
unfoldable pub find : List ℕ → ℕ → Option ℕ
find [] t = none
find (x ∷ xs) t =
    let rest = find xs t in
    if x == t then some 0 else elim rest [ none ↦ none | some i ↦ some (i + 1) ]

-- `erase`: what comes behind moves down, and the last slot keeps its value.
abbrev pub erase : ℕ → TimerHandler → TimerHandler
erase i h = record h {
  slots =
      take i h.slots
      ++ (take (h.size - (i + 1)) (drop (i + 1) h.slots) ++ drop (h.size - 1) h.slots);
  size = h.size - 1;
}

-- `DelistTimer`
unfoldable pub delist_timer : ℕ → TimerHandler → TimerHandler
unfolding find
delist_timer t h = elim (find (take h.size h.slots) t) [ none ↦ h | some i ↦ erase i h ]

-- The destructor, and `delete`.
unfoldable pub destruct : ℕ → TimerHandler → TimerHandler
unfolding delist_timer
destruct t h = let h' = delist_timer t h in record h' { heap = update h'.heap t none }

-- One round of the loop for the timer at an address; `now` is the time after its `Tick`.
unfoldable pub tick_one : ℕ → ℕ → ℕ → TimerHandler → Option TimerHandler
unfolding destruct
tick_one thetime now t h = elim (h.heap t) [
  | none ↦ none
  | some timer ↦
      let called = record h { ticked = h.ticked ++ t ∷ [] } in
      if leb timer.time_out thetime
      then (if timer.repeat
          then some (record called {
            heap = update h.heap t (some (record timer { time_out = now + timer.repeat_interval }));
          })
          else some (destruct t called))
      else some h
]

-- The range-based loop: the end of the array was read before it, so there are as many rounds as there
-- were elements, whatever is erased meanwhile.
unfoldable pub tick_loop : ℕ → (ℕ → ℕ) → ℕ → ℕ → TimerHandler → Option TimerHandler
unfolding tick_one
tick_loop thetime now zero i h = some h
tick_loop thetime now (suc rounds) i h = elim (get_elem? h.slots i) [
  | none ↦ none
  | some t ↦ elim (tick_one thetime (now i) t h) [
    | none ↦ none
    | some h' ↦ tick_loop thetime now rounds (suc i) h'
  ]
]

unfoldable pub tick_timers : ℕ → (ℕ → ℕ) → TimerHandler → Option TimerHandler
unfolding tick_loop
tick_timers thetime now h = tick_loop thetime now h.size 0 h
