-- ===== src/Timers/Repeating.antt =====
-- Ticks of timers that repeat.
use libjustasic.Base.{
  ℕ, suc, ◌+◌, ◌≡◌, refl, Bool, true, false, List, [], ◌∷◌, ◌++◌, Option, none, some, if◌then◌else◌,
  leb, ◌==◌, length, get_elem?, ap, sym, ◌∙◌, All, Bool-cases, inl, inr, append_assoc, append-nil,
  arith, length-append,
}
use libjustasic.Timers.{Timer, TimerHandler, update, tick_one, tick_loop, tick_timers}
use libjustasic.Timers.Ticking.{round}

abbrev pub is_due : ℕ → Option Timer → Bool
is_due thetime none = false
is_due thetime (some timer) = leb timer.time_out thetime

-- The timers whose time has come, in their order.
abbrev pub due : ℕ → (ℕ → Option Timer) → List ℕ → List ℕ
due thetime heap [] = []
due thetime heap (t ∷ ts) =
    if is_due thetime (heap t) then t ∷ due thetime heap ts else due thetime heap ts

abbrev pub repeats : Option Timer → Bool
repeats none = false
repeats (some timer) = timer.repeat

-- Different timers that live and repeat.
unfoldable pub AllRepeat : (ℕ → Option Timer) → List ℕ → Type 0
AllRepeat heap [] = Unit
AllRepeat heap (t ∷ ts) =
    (repeats (heap t) ≡ true) × All (λ u. (t == u) ≡ false) ts × AllRepeat heap ts

-- What the round of such a timer leaves.
abbrev after : ℕ → ℕ → ℕ → Option Timer → TimerHandler → TimerHandler
after thetime now t none h = h
after thetime now t (some timer) h =
    if leb timer.time_out thetime
    then record h {
      ticked = h.ticked ++ t ∷ [];
      heap = update h.heap t (some (record timer { time_out = now + timer.repeat_interval }));
    }
    else h

live_cases :
    (o : Option Timer)
    → repeats o ≡ true
    → (timer : Timer) × (o ≡ some timer) × (timer.repeat ≡ true)
live_cases none h = absurd (cc)
live_cases (some timer) h = (timer, refl, h)

others-due :
    (thetime t : ℕ) (o : Option Timer) (heap : ℕ → Option Timer) (ts : List ℕ)
    → All (λ u. (t == u) ≡ false) ts
    → due thetime (update heap t o) ts ≡ due thetime heap ts
others-due thetime t o heap [] h = refl
others-due thetime t o heap (u ∷ ts) h =
    let rest = others-due thetime t o heap ts h.1 in rw (h.0, rest) refl

others-AllRepeat :
    (t : ℕ) (o : Option Timer) (heap : ℕ → Option Timer) (ts : List ℕ)
    → All (λ u. (t == u) ≡ false) ts
    → AllRepeat heap ts
    → AllRepeat (update heap t o) ts
unfolding AllRepeat
others-AllRepeat t o heap [] h r = tt
others-AllRepeat t o heap (u ∷ ts) h (a, b, c) = (rw h.0 a, b, others-AllRepeat t o heap ts h.1 c)

due_round :
    (thetime now t : ℕ) (timer : Timer) (h : TimerHandler)
    → h.heap t ≡ some timer
    → timer.repeat ≡ true
    → leb timer.time_out thetime ≡ true
    → tick_one thetime now t h
      ≡ some (record h {
        ticked = h.ticked ++ t ∷ [];
        heap = update h.heap t (some (record timer { time_out = now + timer.repeat_interval }));
      })
unfolding tick_one
due_round thetime now t timer h live again d = rw (live, tick_one, d, again) refl

idle_round :
    (thetime now t : ℕ) (timer : Timer) (h : TimerHandler)
    → h.heap t ≡ some timer
    → leb timer.time_out thetime ≡ false
    → tick_one thetime now t h ≡ some h
unfolding tick_one
idle_round thetime now t timer h live d = rw (live, tick_one, d) refl

slot_at : (before ts : List ℕ) (t : ℕ) → get_elem? (before ++ t ∷ ts) (length before) ≡ some t
slot_at [] ts t = refl
slot_at (b ∷ before) ts t = slot_at before ts t

-- The same elements, and further calls.
pub record Ticks (h h' : TimerHandler) (calls : List ℕ) : Type 0 where
  pub slots : h'.slots ≡ h.slots
  pub size : h'.size ≡ h.size
  pub ticked : h'.ticked ≡ h.ticked ++ calls

loop-Ticks :
    (thetime : ℕ) (now : ℕ → ℕ) (before ts : List ℕ) (h : TimerHandler)
    → h.slots ≡ before ++ ts
    → AllRepeat h.heap ts
    → (h' : TimerHandler) × (tick_loop thetime now (length ts) (length before) h ≡ some h')
      × Ticks h h' (due thetime h.heap ts)
unfolding tick_loop AllRepeat
loop-Ticks thetime now before [] h s r =
    (h, refl, record { slots = refl; size = refl; ticked = sym (append-nil h.ticked) })
loop-Ticks thetime now before (t ∷ ts) h s (a, b, c) =
    let (timer, live, again) = live_cases (h.heap t) a in
    let at : get_elem? h.slots (length before) ≡ some t =
      ap (λ l. get_elem? l (length before)) s ∙ slot_at before ts t in
    let i = length before in
    let here : length (before ++ t ∷ []) ≡ suc i = omega (arith, length-append before (t ∷ [])) in
    let s' : h.slots ≡ (before ++ t ∷ []) ++ ts = s ∙ sym (append_assoc before (t ∷ []) ts) in
    elim (Bool-cases (leb timer.time_out thetime)) [
      | inl d ↦
          let o : Option Timer = some (record timer { time_out = now i + timer.repeat_interval }) in
          let h1 : TimerHandler = record h {
            ticked = h.ticked ++ t ∷ [];
            heap = update h.heap t o;
          } in
          let (h', run, ticks) =
            loop-Ticks thetime now (before ++ t ∷ []) ts h1 s'
              (others-AllRepeat t o h.heap ts b c) in
          let run' : tick_loop thetime now (length ts) (suc i) h1 ≡ some h' =
            ap (λ k. tick_loop thetime now (length ts) k h1) (sym here) ∙ run in
          (
            h',
            round thetime now (length ts) i t h h1 (some h') at
                (due_round thetime (now i) t timer h live again d) run',
            record {
              slots = ticks.slots;
              size = ticks.size;
              ticked =
                  ticks.ticked
                  ∙ append_assoc h.ticked (t ∷ []) (due thetime h1.heap ts)
                  ∙ ap (λ l. h.ticked ++ t ∷ l) (others-due thetime t o h.heap ts b)
                  ∙ rw (live, d) refl;
            },
          )
      | inr d ↦
          let (h', run, ticks) = loop-Ticks thetime now (before ++ t ∷ []) ts h s' c in
          let run' : tick_loop thetime now (length ts) (suc i) h ≡ some h' =
            ap (λ k. tick_loop thetime now (length ts) k h) (sym here) ∙ run in
          (
            h',
            round thetime now (length ts) i t h h (some h') at
                (idle_round thetime (now i) t timer h live d) run',
            record {
              slots = ticks.slots;
              size = ticks.size;
              ticked = ticks.ticked ∙ rw (live, d) refl;
            },
          )
    ]

-- When all timers live and repeat, `TickTimers` returns with the same timers in the same order, and
-- it called exactly those whose time had come when it began, each once and in their order.
pub tick_timers-Ticks :
    (thetime : ℕ) (now : ℕ → ℕ) (h : TimerHandler)
    → AllRepeat h.heap h.slots
    → h.size ≡ length h.slots
    → (h' : TimerHandler) × (tick_timers thetime now h ≡ some h')
      × Ticks h h' (due thetime h.heap h.slots)
unfolding tick_timers
tick_timers-Ticks thetime now h r full =
    let (h', run, ticks) = loop-Ticks thetime now [] h.slots h refl r in
    (h', ap (λ n. tick_loop thetime now n 0 h) full ∙ run, ticks)
