-- ===== src/Threads.antt =====
-- The thread engine of src/ThreadEngine.cpp and include/ThreadEngine.h: callers submit jobs to one
-- queue under one lock and wake the workers, which take the jobs. Each step is what one thread does
-- between two points where another may come in. Where a thread stands is its own place: that it has
-- the lock is recorded apart, and no step asks who owns it. A job is a number; one that submits
-- further jobs is a caller while it runs. The flags `wakeThread` and `quitting` are read and written
-- as if they were atomic.
pub mod Order
pub mod Exclusion
pub mod Waking
pub mod Submit
pub mod Wakeup
mod Tests
use libjustasic.Base.{
  ℕ, zero, suc, ◌+◌, ◌*◌, ◌%◌, ◌^◌, ◌≡◌, ◌≤◌, ◌<◌, refl, Bool, true, false, List, [], ◌∷◌, ◌++◌,
  Option, none, some, if◌then◌else◌, leb, ◌==◌,
}

-- Where a worker stands: at the loop's test; with the lock; with the lock and a copy of the first job;
-- with that job popped; running it; with the lock and an empty queue; in `Sleep` before the test of
-- `wakeThread`; past a test that failed; blocked; returned.
pub data Place : Type 0 where
  top holding releasing checking settling waiting gone : Place
  reading carrying working : ℕ → Place

-- Where a caller stands: in no call; in the loop of `Submit`; in `WakeThreads` before the flag of a
-- worker is set, and before that worker is notified.
pub data CallerPlace : Type 0 where
  outside submitting : CallerPlace
  waking telling : ℕ → CallerPlace

pub record Worker : Type 0 where
  pub place : Place
  pub wake_thread : Bool
  pub quitting : Bool

pub data Owner : Type 0 where
  caller worker_ : ℕ → Owner

-- `funcs` and the lock, each caller's `threadQueue` and place, `Threads` with its length, and two
-- records of the past: the jobs that were pushed to `funcs`, and those that workers took to run, in
-- the order of the pops.
pub record System : Type 0 where
  pub count : ℕ
  pub funcs : List ℕ
  pub lock : Option Owner
  pub thread_queue : ℕ → List ℕ
  pub callers : ℕ → CallerPlace
  pub workers : ℕ → Worker
  pub pushed : List ℕ
  pub popped : List ℕ

abbrev pub update {ℓ} : {A : Type ℓ} → (ℕ → A) → ℕ → A → ℕ → A
update f i a j = if i == j then a else f j

abbrev pub move : System → ℕ → Place → ℕ → Worker
move s w p = update s.workers w (record (s.workers w) { place = p })

abbrev pub go : System → ℕ → CallerPlace → ℕ → CallerPlace
go s i p = update s.callers i p

-- The constructor of a worker.
abbrev pub new_worker : Worker
new_worker = record { place = top; wake_thread = false; quitting = false }

abbrev pub idle : ℕ → System
idle n = record {
  count = n;
  funcs = [];
  lock = none;
  thread_queue = λ i. [];
  callers = λ i. outside;
  workers = λ w. new_worker;
  pushed = [];
  popped = [];
}

-- `notify_all` reaches a worker that is blocked.
abbrev pub notified : Place → Place
notified waiting = checking
notified top = top
notified holding = holding
notified releasing = releasing
notified checking = checking
notified settling = settling
notified gone = gone
notified (reading j) = reading j
notified (carrying j) = carrying j
notified (working j) = working j

pub data Step : System → System → Type 0 where
  -- `AddQueue`
  add_queue :
      (s : System) (i job : ℕ)
      → s.callers i ≡ outside
      → Step s (record s { thread_queue = update s.thread_queue i (s.thread_queue i ++ job ∷ []) })
  -- `Submit`: the lock, each round of the loop, the unlock.
  submit_lock :
      (s : System) (i : ℕ)
      → s.callers i ≡ outside
      → s.lock ≡ none
      → Step s (record s { lock = some (caller i); callers = go s i submitting })
  submit_round :
      (s : System) (i job : ℕ) (rest : List ℕ)
      → s.callers i ≡ submitting
      → s.thread_queue i ≡ job ∷ rest
      → Step s (record s {
        thread_queue = update s.thread_queue i rest;
        funcs = s.funcs ++ job ∷ [];
        pushed = s.pushed ++ job ∷ [];
      })
  submit_unlock :
      (s : System) (i : ℕ)
      → s.callers i ≡ submitting
      → s.thread_queue i ≡ []
      → Step s (record s { lock = none; callers = go s i (waking 0) })
  -- `WakeThreads`, and `Wake` with the flag and the notification. Neither takes the worker's mutex.
  set_wake :
      (s : System) (i w : ℕ)
      → s.callers i ≡ waking w
      → w < s.count
      → Step s (record s {
        callers = go s i (telling w);
        workers = update s.workers w (record (s.workers w) { wake_thread = true });
      })
  notify :
      (s : System) (i w : ℕ)
      → s.callers i ≡ telling w
      → Step s (record s {
        callers = go s i (waking (suc w));
        workers = move s w (notified (s.workers w).place);
      })
  all_woken :
      (s : System) (i w : ℕ)
      → s.callers i ≡ waking w
      → s.count ≤ w
      → Step s (record s { callers = go s i outside })
  -- `JoinThreads`, which sets each `quitting` and wakes all, and `Join`.
  wake_threads :
      (s : System) (i : ℕ)
      → s.callers i ≡ outside
      → Step s (record s { callers = go s i (waking 0) })
  quit :
      (s : System) (i w : ℕ)
      → s.callers i ≡ outside
      → Step s
          (record s { workers = update s.workers w (record (s.workers w) { quitting = true }) })
  -- `Main`
  leave :
      (s : System) (w : ℕ)
      → (s.workers w).place ≡ top
      → (s.workers w).quitting ≡ true
      → Step s (record s { workers = move s w gone })
  work_lock :
      (s : System) (w : ℕ)
      → w < s.count
      → (s.workers w).place ≡ top
      → (s.workers w).quitting ≡ false
      → s.lock ≡ none
      → Step s (record s { lock = some (worker_ w); workers = move s w holding })
  front :
      (s : System) (w job : ℕ) (rest : List ℕ)
      → (s.workers w).place ≡ holding
      → s.funcs ≡ job ∷ rest
      → Step s (record s { workers = move s w (reading job) })
  pop :
      (s : System) (w job first : ℕ) (rest : List ℕ)
      → (s.workers w).place ≡ reading job
      → s.funcs ≡ first ∷ rest
      → Step s (record s {
        funcs = rest;
        popped = s.popped ++ job ∷ [];
        workers = move s w (carrying job);
      })
  work_unlock :
      (s : System) (w job : ℕ)
      → (s.workers w).place ≡ carrying job
      → Step s (record s { lock = none; workers = move s w (working job) })
  finish :
      (s : System) (w job : ℕ)
      → (s.workers w).place ≡ working job
      → Step s (record s { workers = move s w top })
  no_job :
      (s : System) (w : ℕ)
      → (s.workers w).place ≡ holding
      → s.funcs ≡ []
      → Step s (record s { workers = move s w releasing })
  no_job_unlock :
      (s : System) (w : ℕ)
      → (s.workers w).place ≡ releasing
      → Step s (record s { lock = none; workers = move s w checking })
  -- `Sleep`
  awake :
      (s : System) (w : ℕ)
      → (s.workers w).place ≡ checking
      → (s.workers w).wake_thread ≡ true
      → Step s (record s {
        workers = update s.workers w (record (s.workers w) { place = top; wake_thread = false });
      })
  not_yet :
      (s : System) (w : ℕ)
      → (s.workers w).place ≡ checking
      → (s.workers w).wake_thread ≡ false
      → Step s (record s { workers = move s w settling })
  block :
      (s : System) (w : ℕ)
      → (s.workers w).place ≡ settling
      → Step s (record s { workers = move s w waiting })
  -- A condition variable may return without a notification.
  spurious :
      (s : System) (w : ℕ)
      → (s.workers w).place ≡ waiting
      → Step s (record s { workers = move s w checking })

-- The thread that makes a step.
abbrev pub agent : {s t : System} → Step s t → Owner
agent (add_queue s i job c) = caller i
agent (submit_lock s i c l) = caller i
agent (submit_round s i job rest c q) = caller i
agent (submit_unlock s i c q) = caller i
agent (set_wake s i w c b) = caller i
agent (notify s i w c) = caller i
agent (all_woken s i w c b) = caller i
agent (wake_threads s i c) = caller i
agent (quit s i w c) = caller i
agent (leave s w p q) = worker_ w
agent (work_lock s w b p q l) = worker_ w
agent (front s w job rest p q) = worker_ w
agent (pop s w job first rest p q) = worker_ w
agent (work_unlock s w job p) = worker_ w
agent (finish s w job p) = worker_ w
agent (no_job s w p q) = worker_ w
agent (no_job_unlock s w p) = worker_ w
agent (awake s w p q) = worker_ w
agent (not_yet s w p q) = worker_ w
agent (block s w p) = worker_ w
agent (spurious s w p) = worker_ w

-- Runs, and what the engine reaches from the start.
pub data Run (s : System) : System → Type 0 where
  here : Run s s
  then_ : {t u : System} → Run s t → Step t u → Run s u

abbrev pub Reach : ℕ → System → Type 0
Reach n = Run (idle n)

-- `Initialize`: the number of threads supported, and the identifiers of the workers.
abbrev pub count_from : ℕ → ℕ → List ℕ
count_from zero i = []
count_from (suc n) i = i ∷ count_from n (suc i)

pub initialize : ℕ → ℕ × List ℕ
initialize hardware_concurrency =
    if leb hardware_concurrency 1
    then (2, count_from 2 1)
    else (hardware_concurrency, count_from ((hardware_concurrency * 2) % 2 ^ 32) 1)
