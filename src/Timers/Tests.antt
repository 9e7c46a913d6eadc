-- ===== src/Timers/Tests.antt =====
-- Ticks of a few timers.
use libjustasic.Base.{ℕ, ◌+◌, ◌≡◌, refl, true, false, [], ◌∷◌, Option, none, some}
use libjustasic.Timers.{
  Timer, TimerHandler, register_timer, construct, delist_timer, find, tick_timers,
}
use libjustasic.Timers.Ticking.{tick_timers-deleted}
use libjustasic.Timers.Repeating.{AllRepeat, Ticks, tick_timers-Ticks}

abbrev once_at : ℕ → Timer
once_at n = record { time_out = n; repeat_interval = 0; repeat = false }

abbrev every : ℕ → ℕ → Timer
every n k = record { time_out = n; repeat_interval = k; repeat = true }

abbrev shots : ℕ → Option Timer
shots a = some (once_at a)

tick_timers-deleted_example :
    tick_timers 9 (λ i. 9) (record { slots = 5 ∷ 6 ∷ 7 ∷ []; size = 3; heap = shots; ticked = [] })
    ≡ none
tick_timers-deleted_example =
    tick_timers-deleted 9 (λ i. 9) 5 6 7 (once_at 5) (once_at 7) shots [] refl refl refl refl refl
      refl refl refl

abbrev beats : TimerHandler
beats = record { slots = 5 ∷ 6 ∷ 7 ∷ []; size = 3; heap = λ a. some (every (a + a) 3); ticked = [] }

tick_timers-Ticks_example :
    (h' : TimerHandler) × (tick_timers 12 (λ i. 20) beats ≡ some h') × Ticks beats h' (5 ∷ 6 ∷ [])
unfolding AllRepeat
tick_timers-Ticks_example =
    tick_timers-Ticks 12 (λ i. 20) beats
      (refl, (refl, (refl, tt)), (refl, (refl, tt), (refl, tt, tt))) refl

abbrev no_timers : TimerHandler
no_timers = record { slots = []; size = 0; heap = λ a. none; ticked = [] }

two_made : (construct 10 1 5 true (construct 10 2 5 false no_timers)).slots ≡ 2 ∷ 1 ∷ []
unfolding construct register_timer
two_made = refl

first_delisted :
    (delist_timer 2 (construct 10 1 5 true (construct 10 2 5 false no_timers))).size ≡ 1
unfolding construct register_timer delist_timer find
first_delisted = refl
