-- ===== src/Threads/Tests.antt =====
-- The theorems of the thread engine at concrete runs.
use libjustasic.Base.{ℕ, ◌≡◌, ◌⊎◌, refl, true, false, [], ◌∷◌, ◌++◌, none, some, arith}
use libjustasic.Threads.{
  System, idle, update, caller, worker_, move, holding, reading, carrying, waiting, outside,
  submitting, waking, go, Run, here, then_, add_queue, submit_lock, submit_round, submit_unlock,
  work_lock, front, pop, Reach,
}
use libjustasic.Threads.Order.{popped-pushed}
use libjustasic.Threads.Exclusion.{exclusion}
use libjustasic.Threads.Waking.{wake_from, Agrees}
use libjustasic.Threads.Submit.{submit, submit-Run}
use libjustasic.Threads.Wakeup.{lost_wakeup}

abbrev queued : System
queued = record (idle 2) { thread_queue = update (idle 2).thread_queue 0 (7 ∷ []) }

abbrev entered : System
entered = record queued { lock = some (caller 0); callers = go queued 0 submitting }

abbrev handed_over : System
handed_over = record entered {
  thread_queue = update entered.thread_queue 0 [];
  funcs = 7 ∷ [];
  pushed = 7 ∷ [];
}

abbrev ready : System
ready = record handed_over { lock = none; callers = go handed_over 0 (waking 0) }

abbrev started : System
started = record ready { lock = some (worker_ 1); workers = move ready 1 holding }

abbrev read : System
read = record started { workers = move started 1 (reading 7) }

abbrev popped : System
popped = record read { funcs = []; popped = 7 ∷ []; workers = move read 1 (carrying 7) }

-- A caller submits the job 7, and worker 1 reads it before the caller wakes anyone.
until_read : Reach 2 read
until_read =
    then_
      (then_
        (then_
          (then_ (then_ (then_ here (add_queue (idle 2) 0 7 refl)) (submit_lock queued 0 refl refl))
            (submit_round entered 0 7 [] refl refl))
          (submit_unlock handed_over 0 refl refl))
        (work_lock ready 1 (omega arith) refl refl refl))
      (front started 1 7 [] refl refl)

popped-pushed_example : popped.popped ++ popped.funcs ≡ popped.pushed
popped-pushed_example = popped-pushed (then_ until_read (pop read 1 7 7 [] refl refl))

exclusion_example :
    (worker_ 1 ≡ worker_ 1)
    × (read.lock ≡ some (worker_ 1))
    × ((read.funcs ≡ popped.funcs) ⊎ (worker_ 1 ≡ worker_ 1))
exclusion_example =
    exclusion until_read (pop read 1 7 7 [] refl refl) (worker_ 1) (worker_ 1) refl refl

abbrev awoken : System
awoken = record queued {
  thread_queue = update queued.thread_queue 0 [];
  funcs = 7 ∷ [];
  pushed = 7 ∷ [];
  workers = wake_from 0 2 queued.workers;
}

submit-Run_example : (t : System) × Run queued t × Agrees t awoken
unfolding submit
submit-Run_example = submit-Run false 0 queued awoken refl refl

lost_wakeup_example :
    (s : System) × Reach 2 s
    × (s.funcs ≡ 9 ∷ [])
    × (s.lock ≡ none)
    × ((s.workers 1).place ≡ waiting)
    × ((s.workers 1).wake_thread ≡ true)
    × ((k : ℕ) → s.callers k ≡ outside)
lost_wakeup_example = lost_wakeup 2 1 0 9 (omega arith)
