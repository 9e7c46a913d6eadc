-- ===== src/Threads/Exclusion.antt =====
-- Who may touch the queue.
use libjustasic.Base.{
  ℕ, ◌≡◌, ◌≢◌, ◌⊎◌, inl, inr, refl, Bool, true, false, Option, none, some, ◌==◌, ap, sym, ◌∙◌,
  arith, Bool-cases, ==_iff,
}
use libjustasic.Threads.{
  Place, top, holding, releasing, checking, settling, waiting, gone, reading, carrying, working,
  CallerPlace, outside, submitting, waking, telling, Worker, Owner, caller, worker_, System, update,
  notified, Step, add_queue, submit_lock, submit_round, submit_unlock, set_wake, notify, all_woken,
  wake_threads, quit, leave, work_lock, front, pop, work_unlock, finish, no_job, no_job_unlock,
  awake, not_yet, block, spurious, here, then_, Reach, agent,
}

-- Places between the lock and the unlock.
abbrev pub critical : Place → Bool
critical holding = true
critical releasing = true
critical (reading j) = true
critical (carrying j) = true
critical top = false
critical checking = false
critical settling = false
critical waiting = false
critical gone = false
critical (working j) = false

abbrev pub is_submitting : CallerPlace → Bool
is_submitting submitting = true
is_submitting outside = false
is_submitting (waking w) = false
is_submitting (telling w) = false

abbrev pub critical_worker : Worker → Bool
critical_worker v = critical v.place

-- The thread stands between its lock and its unlock.
abbrev pub inside : System → Owner → Bool
inside s (caller i) = is_submitting (s.callers i)
inside s (worker_ w) = critical_worker (s.workers w)

-- Threads of one kind that are inside own the lock.
module _ {V : Type 0} (c : V → Bool) (mk : ℕ → Owner) where
  abbrev Holds : Option Owner → (ℕ → V) → Type 0
  Holds lock xs = (j : ℕ) → c (xs j) ≡ true → lock ≡ some (mk j)

  -- No thread of this kind owns the lock.
  others :
      (lock lock' : Option Owner) (xs : ℕ → V)
      → Holds lock xs
      → ((j : ℕ) → lock ≢ some (mk j))
      → Holds lock' xs
  others lock lock' xs h other j q = absurd (other j (h j q))

  module _ (lock : Option Owner) (xs : ℕ → V) (w : ℕ) (v : V) where
    -- The two cases of an updated thread.
    updated :
        (j : ℕ)
        → c (update xs w v j) ≡ true
        → ((w ≡ j) × (c v ≡ true)) ⊎ ((w ≢ j) × (c (xs j) ≡ true))
    updated j q = elim (Bool-cases (w == j)) [
      | inl e ↦ inl ((==_iff w j).0 e, (rw e at q))
      | inr e ↦ inr ((λ p. absurd (ground (arith, e, p))), (rw e at q))
    ]

    same_lock : Holds lock xs → (c v ≡ true → c (xs w) ≡ true) → Holds lock (update xs w v)
    same_lock h k j q = elim (updated j q) [
      | inl (e, q') ↦ h w (k q') ∙ ap (λ n. some (mk n)) e
      | inr (e, q') ↦ h j q'
    ]

    locked : Holds lock xs → lock ≡ none → Holds (some (mk w)) (update xs w v)
    locked h free j q = elim (updated j q) [
      | inl (e, q') ↦ ap (λ n. some (mk n)) e
      | inr (e, q') ↦ absurd (let l = h j q' in cc)
    ]

    unlocked :
        ((a b : ℕ) → some (mk a) ≡ some (mk b) → a ≡ b)
        → Holds lock xs
        → lock ≡ some (mk w)
        → c v ≡ false
        → Holds none (update xs w v)
    unlocked inj h held out j q = elim (updated j q) [
      | inl (e, q') ↦ absurd (cc)
      | inr (e, q') ↦ absurd (e (inj w j (sym held ∙ h j q')))
    ]

abbrev Workers : System → Type 0
Workers s = Holds critical_worker worker_ s.lock s.workers

abbrev Callers : System → Type 0
Callers s = Holds is_submitting caller s.lock s.callers

notified-critical : (p : Place) → critical (notified p) ≡ critical p
notified-critical top = refl
notified-critical holding = refl
notified-critical releasing = refl
notified-critical checking = refl
notified-critical settling = refl
notified-critical waiting = refl
notified-critical gone = refl
notified-critical (reading j) = refl
notified-critical (carrying j) = refl
notified-critical (working j) = refl

caller_inj : (a b : ℕ) → some (caller a) ≡ some (caller b) → a ≡ b
caller_inj a b e = cc

worker_inj : (a b : ℕ) → some (worker_ a) ≡ some (worker_ b) → a ≡ b
worker_inj a b e = cc

step-Workers : {s t : System} → Step s t → Workers s → Callers s → Workers t
step-Workers (add_queue s i job c) h k = h
step-Workers (submit_lock s i c l) h k =
    others critical_worker worker_ s.lock _ s.workers h (λ w e. cc)
step-Workers (submit_round s i job rest c q) h k = h
step-Workers (submit_unlock s i c q) h k =
    let own = k i (ap is_submitting c) in
    others critical_worker worker_ s.lock _ s.workers h (λ w e. cc)
step-Workers (set_wake s i w c b) h k =
    same_lock critical_worker worker_ s.lock s.workers w _ h (λ q. q)
step-Workers (notify s i w c) h k =
    same_lock critical_worker worker_ s.lock s.workers w _ h
      (λ q. sym (notified-critical (s.workers w).place) ∙ q)
step-Workers (all_woken s i w c b) h k = h
step-Workers (wake_threads s i c) h k = h
step-Workers (quit s i w c) h k = same_lock critical_worker worker_ s.lock s.workers w _ h (λ q. q)
step-Workers (leave s w p q) h k =
    same_lock critical_worker worker_ s.lock s.workers w _ h (λ c. cc)
step-Workers (work_lock s w b p q l) h k = locked critical_worker worker_ s.lock s.workers w _ h l
step-Workers (front s w job rest p q) h k =
    same_lock critical_worker worker_ s.lock s.workers w _ h (λ c. ap critical p)
step-Workers (pop s w job first rest p q) h k =
    same_lock critical_worker worker_ s.lock s.workers w _ h (λ c. ap critical p)
step-Workers (work_unlock s w job p) h k =
    unlocked critical_worker worker_ s.lock s.workers w _ worker_inj h (h w (ap critical p)) refl
step-Workers (finish s w job p) h k =
    same_lock critical_worker worker_ s.lock s.workers w _ h (λ c. cc)
step-Workers (no_job s w p q) h k =
    same_lock critical_worker worker_ s.lock s.workers w _ h (λ c. ap critical p)
step-Workers (no_job_unlock s w p) h k =
    unlocked critical_worker worker_ s.lock s.workers w _ worker_inj h (h w (ap critical p)) refl
step-Workers (awake s w p q) h k =
    same_lock critical_worker worker_ s.lock s.workers w _ h (λ c. cc)
step-Workers (not_yet s w p q) h k =
    same_lock critical_worker worker_ s.lock s.workers w _ h (λ c. cc)
step-Workers (block s w p) h k = same_lock critical_worker worker_ s.lock s.workers w _ h (λ c. cc)
step-Workers (spurious s w p) h k =
    same_lock critical_worker worker_ s.lock s.workers w _ h (λ c. cc)

step-Callers : {s t : System} → Step s t → Workers s → Callers s → Callers t
step-Callers (submit_lock s i c l) h k = locked is_submitting caller s.lock s.callers i _ k l
step-Callers (submit_unlock s i c q) h k =
    unlocked is_submitting caller s.lock s.callers i _ caller_inj k (k i (ap is_submitting c)) refl
step-Callers (set_wake s i w c b) h k =
    same_lock is_submitting caller s.lock s.callers i _ k (λ q. cc)
step-Callers (notify s i w c) h k = same_lock is_submitting caller s.lock s.callers i _ k (λ q. cc)
step-Callers (all_woken s i w c b) h k =
    same_lock is_submitting caller s.lock s.callers i _ k (λ q. cc)
step-Callers (work_lock s w b p q l) h k =
    others is_submitting caller s.lock _ s.callers k (λ i e. cc)
step-Callers (wake_threads s i c) h k =
    same_lock is_submitting caller s.lock s.callers i _ k (λ q. cc)
step-Callers (work_unlock s w job p) h k =
    let own = h w (ap critical p) in others is_submitting caller s.lock _ s.callers k (λ i e. cc)
step-Callers (no_job_unlock s w p) h k =
    let own = h w (ap critical p) in others is_submitting caller s.lock _ s.callers k (λ i e. cc)
step-Callers (add_queue s i job c) h k = k
step-Callers (submit_round s i job rest c q) h k = k
step-Callers (quit s i w c) h k = k
step-Callers (leave s w p q) h k = k
step-Callers (front s w job rest p q) h k = k
step-Callers (pop s w job first rest p q) h k = k
step-Callers (finish s w job p) h k = k
step-Callers (no_job s w p q) h k = k
step-Callers (awake s w p q) h k = k
step-Callers (not_yet s w p q) h k = k
step-Callers (block s w p) h k = k
step-Callers (spurious s w p) h k = k

Reach-both : {n : ℕ} {s : System} → Reach n s → Workers s × Callers s
Reach-both here = ((λ w c. absurd (cc)), (λ i c. absurd (cc)))
Reach-both (then_ r p) = let (h, k) = Reach-both r in (step-Workers p h k, step-Callers p h k)

-- A thread that is inside owns the lock.
pub inside-owner :
    {n : ℕ} {s : System} → Reach n s → (a : Owner) → inside s a ≡ true → s.lock ≡ some a
inside-owner r (caller i) q = (Reach-both r).1 i q
inside-owner r (worker_ w) q = (Reach-both r).0 w q

-- What changes the queue is made by a thread that is inside.
changes-inside : {s t : System} (p : Step s t) → (s.funcs ≡ t.funcs) ⊎ (inside s (agent p) ≡ true)
changes-inside (submit_round s i job rest c q) = inr (ap is_submitting c)
changes-inside (pop s w job first rest p q) = inr (ap critical p)
changes-inside (submit_lock s i c l) = inl refl
changes-inside (submit_unlock s i c q) = inl refl
changes-inside (set_wake s i w c b) = inl refl
changes-inside (notify s i w c) = inl refl
changes-inside (all_woken s i w c b) = inl refl
changes-inside (work_lock s w b p q l) = inl refl
changes-inside (work_unlock s w job p) = inl refl
changes-inside (no_job_unlock s w p) = inl refl
changes-inside (add_queue s i job c) = inl refl
changes-inside (wake_threads s i c) = inl refl
changes-inside (quit s i w c) = inl refl
changes-inside (leave s w p q) = inl refl
changes-inside (front s w job rest p q) = inl refl
changes-inside (finish s w job p) = inl refl
changes-inside (no_job s w p q) = inl refl
changes-inside (awake s w p q) = inl refl
changes-inside (not_yet s w p q) = inl refl
changes-inside (block s w p) = inl refl
changes-inside (spurious s w p) = inl refl

-- Two threads, workers or callers, are never between their lock and their unlock together; a thread
-- that is there owns the lock; and until it leaves, no other thread changes the queue: a step leaves
-- the queue as it is or is a step of that thread.
pub exclusion :
    {n : ℕ} {s t : System} (r : Reach n s) (p : Step s t) (a b : Owner)
    → inside s a ≡ true
    → inside s b ≡ true
    → (a ≡ b) × (s.lock ≡ some a) × ((s.funcs ≡ t.funcs) ⊎ (agent p ≡ a))
exclusion r p a b ia ib =
    let la = inside-owner r a ia in
    let lb = inside-owner r b ib in
    (
      cc,
      la,
      elim (changes-inside p) [
        | inl e ↦ inl e
        | inr e ↦ inr (let l = inside-owner r (agent p) e in cc)
      ],
    )
