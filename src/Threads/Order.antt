-- ===== src/Threads/Order.antt =====
-- The order of the jobs.
use libjustasic.Base.{
  ℕ, ◌≡◌, ◌≢◌, ◌⊎◌, inl, inr, refl, List, [], ◌∷◌, ◌++◌, ap, sym, ◌∙◌, append_assoc, Bool-cases,
  ◌==◌, ==_iff, arith,
}
use libjustasic.Threads.{
  Place, waiting, top, holding, releasing, checking, settling, gone, reading, carrying, working,
  Worker, worker_, System, update, notified, Step, add_queue, submit_lock, submit_round,
  submit_unlock, set_wake, notify, all_woken, wake_threads, quit, leave, work_lock, front, pop,
  work_unlock, finish, no_job, no_job_unlock, awake, not_yet, block, spurious, here, then_, Reach,
}
use libjustasic.Threads.Exclusion.{critical, inside-owner}

-- The job is the first one of the queue.
abbrev IsFirst : ℕ → List ℕ → Type 0
IsFirst job funcs = (rest : List ℕ) × (funcs ≡ job ∷ rest)

-- A worker that has copied a job and not popped it still has it in front of the queue.
abbrev Fronts : List ℕ → (ℕ → Worker) → Type 0
Fronts funcs ws = (w job : ℕ) → (ws w).place ≡ reading job → IsFirst job funcs

module _ (funcs : List ℕ) (ws : ℕ → Worker) (w : ℕ) (v : Worker) where
  -- The two cases of an updated worker that reads.
  updated :
      (j job : ℕ)
      → (update ws w v j).place ≡ reading job
      → ((w ≡ j) × (v.place ≡ reading job)) ⊎ ((w ≢ j) × ((ws j).place ≡ reading job))
  updated j job q = elim (Bool-cases (w == j)) [
    | inl e ↦ inl ((==_iff w j).0 e, (rw e at q))
    | inr e ↦ inr ((λ p. absurd (ground (arith, e, p))), (rw e at q))
  ]

  reads :
      Fronts funcs ws
      → ((job : ℕ) → v.place ≡ reading job → IsFirst job funcs)
      → Fronts funcs (update ws w v)
  reads h k j job q = elim (updated j job q) [ inl (e, q') ↦ k job q' | inr (e, q') ↦ h j job q' ]

notified-reading : (p : Place) (job : ℕ) → notified p ≡ reading job → p ≡ reading job
notified-reading waiting job e = cc
notified-reading top job e = e
notified-reading holding job e = e
notified-reading releasing job e = e
notified-reading checking job e = e
notified-reading settling job e = e
notified-reading gone job e = e
notified-reading (reading j) job e = e
notified-reading (carrying j) job e = e
notified-reading (working j) job e = e

append-IsFirst :
    (job new : ℕ) (funcs : List ℕ) → IsFirst job funcs → IsFirst job (funcs ++ new ∷ [])
append-IsFirst job new funcs (rest, e) = (rest ++ new ∷ [], ap (λ f. f ++ new ∷ []) e)

step-Fronts :
    {n : ℕ} {s t : System}
    → Reach n s
    → Step s t
    → Fronts s.funcs s.workers
    → Fronts t.funcs t.workers
step-Fronts r (submit_round s i job rest c q) h = λ w j e. append-IsFirst j job s.funcs (h w j e)
step-Fronts r (front s w job rest p q) h =
    reads s.funcs s.workers w _ h (λ j e. (rest, (let same : job ≡ j = cc in cc)))
step-Fronts r (pop s w job first rest p q) h = λ j k e. elim (updated s.funcs s.workers w _ j k e) [
  | inl (_, e') ↦ absurd (cc)
  | inr (ne, e') ↦
      let one = inside-owner r (worker_ w) (ap critical p) in
      let two = inside-owner r (worker_ j) (ap critical e') in absurd (ne (cc))
]
step-Fronts r (set_wake s i w c b) h = reads s.funcs s.workers w _ h (h w)
step-Fronts r (notify s i w c) h =
    reads s.funcs s.workers w _ h (λ j e. h w j (notified-reading (s.workers w).place j e))
step-Fronts r (quit s i w c) h = reads s.funcs s.workers w _ h (h w)
step-Fronts r (leave s w p q) h = reads s.funcs s.workers w _ h (λ j e. absurd (cc))
step-Fronts r (work_lock s w b p q l) h = reads s.funcs s.workers w _ h (λ j e. absurd (cc))
step-Fronts r (work_unlock s w job p) h = reads s.funcs s.workers w _ h (λ j e. absurd (cc))
step-Fronts r (finish s w job p) h = reads s.funcs s.workers w _ h (λ j e. absurd (cc))
step-Fronts r (no_job s w p q) h = reads s.funcs s.workers w _ h (λ j e. absurd (cc))
step-Fronts r (no_job_unlock s w p) h = reads s.funcs s.workers w _ h (λ j e. absurd (cc))
step-Fronts r (awake s w p q) h = reads s.funcs s.workers w _ h (λ j e. absurd (cc))
step-Fronts r (not_yet s w p q) h = reads s.funcs s.workers w _ h (λ j e. absurd (cc))
step-Fronts r (block s w p) h = reads s.funcs s.workers w _ h (λ j e. absurd (cc))
step-Fronts r (spurious s w p) h = reads s.funcs s.workers w _ h (λ j e. absurd (cc))
step-Fronts r (add_queue s i job c) h = h
step-Fronts r (submit_lock s i c l) h = h
step-Fronts r (submit_unlock s i c q) h = h
step-Fronts r (all_woken s i w c b) h = h
step-Fronts r (wake_threads s i c) h = h

Reach-Fronts : {n : ℕ} {s : System} → Reach n s → Fronts s.funcs s.workers
Reach-Fronts here = λ w j e. absurd (cc)
Reach-Fronts (then_ r p) = step-Fronts r p (Reach-Fronts r)

step-order :
    {s t : System}
    → Step s t
    → Fronts s.funcs s.workers
    → s.popped ++ s.funcs ≡ s.pushed
    → t.popped ++ t.funcs ≡ t.pushed
step-order (submit_round s i job rest c q) f h =
    sym (append_assoc s.popped s.funcs (job ∷ [])) ∙ ap (λ p. p ++ job ∷ []) h
step-order (pop s w job first rest p q) f h =
    let (rest', e) = f w job p in
    let same : job ∷ rest ≡ s.funcs = cc in
    append_assoc s.popped (job ∷ []) rest ∙ ap (λ l. s.popped ++ l) same ∙ h
step-order (add_queue s i job c) f h = h
step-order (submit_lock s i c l) f h = h
step-order (submit_unlock s i c q) f h = h
step-order (set_wake s i w c b) f h = h
step-order (notify s i w c) f h = h
step-order (all_woken s i w c b) f h = h
step-order (wake_threads s i c) f h = h
step-order (quit s i w c) f h = h
step-order (leave s w p q) f h = h
step-order (work_lock s w b p q l) f h = h
step-order (front s w job rest p q) f h = h
step-order (work_unlock s w job p) f h = h
step-order (finish s w job p) f h = h
step-order (no_job s w p q) f h = h
step-order (no_job_unlock s w p) f h = h
step-order (awake s w p q) f h = h
step-order (not_yet s w p q) f h = h
step-order (block s w p) f h = h
step-order (spurious s w p) f h = h

-- However the threads interleave, the jobs that workers took, each as it was copied from the front
-- of the queue before the pop, are the jobs that were pushed, in their order and each of them once,
-- and what was not taken is still in the queue.
pub popped-pushed : {n : ℕ} {s : System} → Reach n s → s.popped ++ s.funcs ≡ s.pushed
popped-pushed here = refl
popped-pushed (then_ r p) = step-order p (Reach-Fronts r) (popped-pushed r)
