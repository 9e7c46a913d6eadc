-- ===== src/Threads/Wakeup.antt =====
-- A wake-up that is lost.
use libjustasic.Base.{
  ℕ, ◌≡◌, ◌<◌, refl, true, [], ◌∷◌, none, some, ==_refl, leb, ltb, ◌&&◌, arith, ap, ◌∙◌,
}
use libjustasic.Threads.{
  holding, releasing, checking, settling, waiting, outside, System, idle, update, move, worker_,
  add_queue, work_lock, no_job, no_job_unlock, not_yet, block, Run, here, then_, Reach,
}
use libjustasic.Threads.Submit.{submitted, submitted-Run}

run_trans : {s t u : System} → Run s t → Run t u → Run s u
run_trans r here = r
run_trans r (then_ q p) = then_ (run_trans r q) p

-- The states of the run: the worker `w` of `n` finds no job and tests its flag, and a caller adds one.
module _ (n w i job : ℕ) where
  abbrev with_lock : System
  with_lock = record (idle n) { lock = some (worker_ w); workers = move (idle n) w holding }

  abbrev empty_handed : System
  empty_handed = record with_lock { workers = move with_lock w releasing }

  abbrev asleep : System
  asleep = record empty_handed { lock = none; workers = move empty_handed w checking }

  abbrev tested : System
  tested = record asleep { workers = move asleep w settling }

  abbrev filled : System
  filled = record tested { thread_queue = update tested.thread_queue i (job ∷ []) }

  until_asleep : w < n → Reach n asleep
  until_asleep b =
      then_
        (then_ (then_ here (work_lock (idle n) w b refl refl refl))
          (no_job with_lock w (rw (==_refl w) refl) refl))
        (no_job_unlock empty_handed w (rw (==_refl w) refl))

  until_filled : w < n → Reach n filled
  until_filled b =
      then_ (then_ (until_asleep b) (not_yet asleep w (rw (==_refl w) refl) (rw (==_refl w) refl)))
        (add_queue tested i job refl)

  -- The worker after the call of `Submit`, with its flag set and not yet blocked.
  late :
      w < n
      → ((submitted i filled).workers w).place ≡ settling
        × ((submitted i filled).workers w).wake_thread ≡ true
  late b =
      let there : (leb 0 w && ltb w n) ≡ true = ground (arith, b) in
      (rw there (rw (==_refl w) refl), rw there refl)

blocking :
    (t : System) (w : ℕ)
    → ((move t w waiting w).place ≡ waiting)
      × ((move t w waiting w).wake_thread ≡ (t.workers w).wake_thread)
blocking t w = (rw (==_refl w) refl, rw (==_refl w) refl)

-- A wake-up can be lost: for every worker, the engine reaches a state in which that worker is blocked
-- although its flag is set, the queue holds a job, the lock is free, and no caller is in a call of
-- `Submit` or `WakeThreads`, so that no notification is on its way to the worker.
pub lost_wakeup :
    (n w i job : ℕ)
    → w < n
    → (s : System) × Reach n s
      × (s.funcs ≡ job ∷ [])
      × (s.lock ≡ none)
      × ((s.workers w).place ≡ waiting)
      × ((s.workers w).wake_thread ≡ true)
      × ((k : ℕ) → s.callers k ≡ outside)
lost_wakeup n w i job b =
    let (t, run, a) = submitted-Run i (filled n w i job) refl refl in
    let at : t.workers w ≡ (submitted i (filled n w i job)).workers w = a.workers w in
    let (place, flag) = late n w i job b in
    (
      record t { workers = move t w waiting },
      then_ (run_trans (until_filled n w i job b) run) (block t w (ap (λ v. v.place) at ∙ place)),
      a.funcs ∙ rw (==_refl i) refl,
      a.lock,
      (blocking t w).0,
      (blocking t w).1 ∙ ap (λ v. v.wake_thread) at ∙ flag,
      a.callers,
    )
