-- ===== src/Threads/Submit.antt =====
-- `Submit` as one call, and as the steps of its loop; and `Initialize`.
use libjustasic.Base.{
  ℕ, zero, suc, ◌+◌, ◌*◌, ◌%◌, ◌^◌, ◌≡◌, ◌<◌, refl, Bool, true, false, List, [], ◌∷◌, ◌++◌, Option,
  none, some, if◌then◌else◌, leb, max, length, get_elem?, ap, sym, ◌∙◌, append_assoc, append-nil,
  arith, Bool-cases, ==_refl, inl, inr, ◌⊎◌, ltb, subst,
}
use libjustasic.Threads.{
  Owner, caller, System, outside, submitting, waking, update, go, submit_lock, submit_round,
  submit_unlock, Run, here, then_, count_from, initialize,
}
use libjustasic.Threads.Waking.{wake_from, Agrees, update_twice, update_same, wake_rest}

abbrev pub is_taken : Option Owner → Bool
is_taken none = false
is_taken (some o) = true

-- `Submit` of the caller `i`, the wake-up included: its answer and what it leaves. `none` while it
-- waits for the lock.
unfoldable pub submit : Bool → ℕ → System → Option (Bool × System)
submit no_stall i s =
    if is_taken s.lock
    then (if no_stall then some (false, s) else none)
    else some (
      true,
      record s {
        thread_queue = update s.thread_queue i [];
        funcs = s.funcs ++ s.thread_queue i;
        pushed = s.pushed ++ s.thread_queue i;
        workers = wake_from 0 s.count s.workers;
      },
    )

Owner-cases : (l : Option Owner) → (l ≡ none) ⊎ (is_taken l ≡ true)
Owner-cases none = inl refl
Owner-cases (some o) = inr refl

-- The rest of the loop, the unlock and the wake-up.
abbrev drained : ℕ → List ℕ → System → System
drained i jobs s = record s {
  thread_queue = update s.thread_queue i [];
  funcs = s.funcs ++ jobs;
  pushed = s.pushed ++ jobs;
  lock = none;
  callers = go s i outside;
  workers = wake_from 0 s.count s.workers;
}

unfinished :
    (jobs : List ℕ) (s0 s : System) (i : ℕ)
    → Run s0 s
    → s.callers i ≡ submitting
    → s.thread_queue i ≡ jobs
    → (t : System) × Run s0 t × Agrees t (drained i jobs s)
unfinished [] s0 s i r c q =
    let s' = record s { lock = none; callers = go s i (waking 0) } in
    let (t, run, a) =
      wake_rest s.count 0 s0 s' i (then_ r (submit_unlock s i c q)) (rw (==_refl i) refl)
        (omega arith) in
    (
      t,
      run,
      record {
        count = a.count;
        funcs = a.funcs ∙ sym (append-nil s.funcs);
        lock = a.lock;
        pushed = a.pushed ∙ sym (append-nil s.pushed);
        popped = a.popped;
        thread_queue = λ j. a.thread_queue j ∙ sym (update_same s.thread_queue i [] q j);
        callers = λ j. a.callers j ∙ update_twice s.callers i (waking 0) outside j;
        workers = a.workers;
      },
    )
unfinished (job ∷ jobs) s0 s i r c q =
    let s' = record s {
      thread_queue = update s.thread_queue i jobs;
      funcs = s.funcs ++ job ∷ [];
      pushed = s.pushed ++ job ∷ [];
    } in
    let (t, run, a) =
      unfinished jobs s0 s' i (then_ r (submit_round s i job jobs c q)) c (rw (==_refl i) refl) in
    (
      t,
      run,
      record {
        count = a.count;
        funcs = a.funcs ∙ append_assoc s.funcs (job ∷ []) jobs;
        lock = a.lock;
        pushed = a.pushed ∙ append_assoc s.pushed (job ∷ []) jobs;
        popped = a.popped;
        thread_queue = λ j. a.thread_queue j ∙ update_twice s.thread_queue i jobs [] j;
        callers = a.callers;
        workers = a.workers;
      },
    )

abbrev pub submitted : ℕ → System → System
submitted i s = record s {
  thread_queue = update s.thread_queue i [];
  funcs = s.funcs ++ s.thread_queue i;
  pushed = s.pushed ++ s.thread_queue i;
  workers = wake_from 0 s.count s.workers;
}

submit_free :
    (no_stall : Bool) (i : ℕ) (s : System)
    → is_taken s.lock ≡ false
    → submit no_stall i s ≡ some (true, submitted i s)
unfolding submit
submit_free no_stall i s e = rw e refl

submit_busy :
    (no_stall : Bool) (i : ℕ) (s : System)
    → is_taken s.lock ≡ true
    → submit no_stall i s ≡ (if no_stall then some (false, s) else none)
unfolding submit
submit_busy no_stall i s e = rw e refl

-- The steps of a call with a free lock.
pub submitted-Run :
    (i : ℕ) (s : System)
    → s.callers i ≡ outside
    → s.lock ≡ none
    → (t : System) × Run s t × Agrees t (submitted i s)
submitted-Run i s c free =
    let s' = record s { lock = some (caller i); callers = go s i submitting } in
    let (t, run, a) =
      unfinished (s.thread_queue i) s s' i (then_ here (submit_lock s i c free))
        (rw (==_refl i) refl) refl in
    (
      t,
      run,
      record {
        count = a.count;
        funcs = a.funcs;
        lock = a.lock ∙ sym free;
        pushed = a.pushed;
        popped = a.popped;
        thread_queue = a.thread_queue;
        callers = λ j.
            a.callers j
            ∙ update_twice s.callers i submitting outside j
            ∙ update_same s.callers i outside c j;
        workers = a.workers;
      },
    )

-- A call of `Submit` by a caller that is in no other call, if it answers true, is what the steps of
-- the engine can do: they lead from where it starts to a state that is the same as the one that it
-- leaves, in which the jobs of the caller stand behind the queue, its own queue is empty, the lock is
-- free, every worker has its flag set and was notified, and the caller is in no call.
pub submit-Run :
    (no_stall : Bool) (i : ℕ) (s u : System)
    → s.callers i ≡ outside
    → submit no_stall i s ≡ some (true, u)
    → (t : System) × Run s t × Agrees t u
submit-Run no_stall i s u c e = elim (Owner-cases s.lock) [
  | inl free ↦
      let (t, run, a) = submitted-Run i s c free in
      let done = submit_free no_stall i s (ap is_taken free) in
      let q : submitted i s ≡ u = cc in (t, run, subst (Agrees t) q a)
  | inr taken ↦ elim (Bool-cases no_stall) [
    | inl n ↦
        let busy : submit no_stall i s ≡ some (false, s) =
          submit_busy no_stall i s taken ∙ rw n refl in
        absurd (cc)
    | inr n ↦
        let busy : submit no_stall i s ≡ none = submit_busy no_stall i s taken ∙ rw n refl in
        absurd (cc)
  ]
]

count_from_lem :
    (n a i : ℕ)
    → (length (count_from n a) ≡ n)
      × (get_elem? (count_from n a) i ≡ (if ltb i n then some (a + i) else none))
count_from_lem zero a zero = (refl, ground arith)
count_from_lem zero a (suc i) = (refl, ground arith)
count_from_lem (suc n) a zero = (omega (arith, (count_from_lem n (suc a) 0).0), ground arith)
count_from_lem (suc n) a (suc i) =
    let (len, at) = count_from_lem n (suc a) i in (omega (arith, len), ground (arith, at))

-- At least two workers are made, and their identifiers count up from 1.
initialize_lem :
    (hardware_concurrency i : ℕ)
    → hardware_concurrency < 2 ^ 31
    → (length (initialize hardware_concurrency).1 ≡ max 2 (hardware_concurrency * 2))
      × (get_elem? (initialize hardware_concurrency).1 i
          ≡ (if ltb i (max 2 (hardware_concurrency * 2)) then some (1 + i) else none))
unfolding initialize
initialize_lem hardware_concurrency i small = elim (Bool-cases (leb hardware_concurrency 1)) [
  | inl e ↦
      let two : max 2 (hardware_concurrency * 2) ≡ 2 = ground (arith, e) in
      rw (e, two) (count_from_lem 2 1 i)
  | inr e ↦
      let twice : max 2 (hardware_concurrency * 2) ≡ (hardware_concurrency * 2) % 2 ^ 32 =
        ground (arith, e) in
      rw (e, twice) (count_from_lem ((hardware_concurrency * 2) % 2 ^ 32) 1 i)
]
