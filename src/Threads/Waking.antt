-- ===== src/Threads/Waking.antt =====
-- `WakeThreads` as one call, and as the steps of its loop.
use libjustasic.Base.{
  ℕ, zero, suc, ◌+◌, ◌≡◌, ◌<◌, refl, true, false, if◌then◌else◌, ◌==◌, leb, ap, sym, ◌∙◌, arith,
  Bool-cases, ==_refl, inl, inr, ==_iff, ltb, ◌&&◌,
}
use libjustasic.Threads.{
  Worker, System, outside, waking, telling, update, move, go, notified, set_wake, notify, all_woken,
  Run, then_,
}

-- `Wake` of one worker: the flag and the notification.
abbrev pub woken : Worker → Worker
woken v = record v { wake_thread = true; place = notified v.place }

-- `WakeThreads`, from the worker `k` on.
abbrev pub wake_from : ℕ → ℕ → (ℕ → Worker) → ℕ → Worker
wake_from k n ws w = if leb k w && ltb w n then woken (ws w) else ws w

-- Two systems that are the same, seen through the functions.
pub record Agrees (s t : System) : Type 0 where
  pub count : s.count ≡ t.count
  pub funcs : s.funcs ≡ t.funcs
  pub lock : s.lock ≡ t.lock
  pub pushed : s.pushed ≡ t.pushed
  pub popped : s.popped ≡ t.popped
  pub thread_queue : (j : ℕ) → s.thread_queue j ≡ t.thread_queue j
  pub callers : (j : ℕ) → s.callers j ≡ t.callers j
  pub workers : (w : ℕ) → s.workers w ≡ t.workers w

pub update_twice :
    {A : Type 0} (f : ℕ → A) (i : ℕ) (a b : A) (j : ℕ)
    → update (update f i a) i b j ≡ update f i b j
update_twice f i a b j = elim (Bool-cases (i == j)) [ inl e ↦ rw e refl | inr e ↦ rw e refl ]

-- What is there already.
pub update_same :
    {A : Type 0} (f : ℕ → A) (i : ℕ) (a : A) → f i ≡ a → (j : ℕ) → update f i a j ≡ f j
update_same f i a q j = elim (Bool-cases (i == j)) [
  | inl e ↦ rw e (sym (ap f (sym ((==_iff i j).0 e)) ∙ q))
  | inr e ↦ rw e refl
]

-- The two steps of one `Wake`.
abbrev flagged : System → ℕ → ℕ → System
flagged s i k = record s {
  callers = go s i (telling k);
  workers = update s.workers k (record (s.workers k) { wake_thread = true });
}

abbrev told : System → ℕ → ℕ → System
told s i k = record s {
  callers = go s i (waking (suc k));
  workers = move s k (notified (s.workers k).place);
}

one_woken :
    (s : System) (i k w : ℕ)
    → k < s.count
    → wake_from (suc k) s.count (told (flagged s i k) i k).workers w
      ≡ wake_from k s.count s.workers w
one_woken s i k w b = elim (Bool-cases (k == w)) [
  | inl e ↦
      let p : k ≡ w = (==_iff k w).0 e in
      let late : (leb (suc k) w && ltb w s.count) ≡ false = ground (arith, e) in
      let now : (leb k w && ltb w s.count) ≡ true = ground (arith, e, b) in
      rw (late, now, e) (rw (==_refl k) (ap (λ n. woken (s.workers n)) p))
  | inr e ↦
      let same : (leb (suc k) w && ltb w s.count) ≡ (leb k w && ltb w s.count) =
        ground (arith, e) in
      rw (same, e) refl
]

-- The caller outside and the workers from `k` on woken.
abbrev pub done_from : ℕ → ℕ → System → System
done_from k i s = record s { callers = go s i outside; workers = wake_from k s.count s.workers }

pub wake_rest :
    (m k : ℕ) (s0 s : System) (i : ℕ)
    → Run s0 s
    → s.callers i ≡ waking k
    → k + m ≡ s.count
    → (t : System) × Run s0 t × Agrees t (done_from k i s)
wake_rest zero k s0 s i r c e = (
  record s { callers = go s i outside },
  then_ r (all_woken s i k c (omega (arith, e))),
  record {
    count = refl;
    funcs = refl;
    lock = refl;
    pushed = refl;
    popped = refl;
    thread_queue = λ j. refl;
    callers = λ j. refl;
    workers = λ w. let no : (leb k w && ltb w s.count) ≡ false = ground (arith, e) in rw no refl;
  },
)
wake_rest (suc m) k s0 s i r c e =
    let b : k < s.count = omega (arith, e) in
    let s1 = flagged s i k in
    let s2 = told s1 i k in
    let r1 = then_ r (set_wake s i k c b) in
    let r2 = then_ r1 (notify s1 i k (rw (==_refl i) refl)) in
    let (t, run, a) = wake_rest m (suc k) s0 s2 i r2 (rw (==_refl i) refl) (omega (arith, e)) in
    (
      t,
      run,
      record {
        count = a.count;
        funcs = a.funcs;
        lock = a.lock;
        pushed = a.pushed;
        popped = a.popped;
        thread_queue = a.thread_queue;
        callers = λ j.
            a.callers j
            ∙ update_twice s1.callers i (waking (suc k)) outside j
            ∙ update_twice s.callers i (telling k) outside j;
        workers = λ w. a.workers w ∙ one_woken s i k w b;
      },
    )
