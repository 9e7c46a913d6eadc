-- ===== src/Announce/Laws.antt =====
-- Which handlers an event reaches.
use libjustasic.Base.{ℕ, ◌≡◌, refl, Bool, true, false, List, [], ◌∷◌, ◌++◌, All}
use libjustasic.Announce.{
  EventResult, event_continue, event_stop, Called, returns, throws_module, throws_other, faults,
  announces, End, released, held, killed, deadlocked, next, ended, round, foreach_mod,
  foreach_result,
}

-- The outcome lets the loop go on: a `ModuleException` does, and a fault where there is `setjmp`.
abbrev pub is_passed : Bool → Called → Bool
is_passed has_setjmp (returns event_continue) = true
is_passed has_setjmp (returns event_stop) = false
is_passed has_setjmp throws_module = true
is_passed has_setjmp throws_other = false
is_passed has_setjmp faults = has_setjmp
is_passed has_setjmp announces = false

-- For `FOREACH_MOD` the result does not matter.
abbrev pub is_survived : Bool → Called → Bool
is_survived has_setjmp (returns r) = true
is_survived has_setjmp throws_module = true
is_survived has_setjmp throws_other = false
is_survived has_setjmp faults = has_setjmp
is_survived has_setjmp announces = false

round-survived :
    (has_setjmp : Bool) (c : Called)
    → is_survived has_setjmp c ≡ true
    → (r : EventResult) × (round has_setjmp c ≡ next r)
unfolding round
round-survived has_setjmp (returns r) h = (r, refl)
round-survived has_setjmp throws_module h = (event_continue, refl)
round-survived has_setjmp throws_other h = absurd (cc)
round-survived has_setjmp faults h = (event_continue, rw h refl)
round-survived has_setjmp announces h = absurd (cc)

round-passed :
    (has_setjmp : Bool) (c : Called)
    → is_passed has_setjmp c ≡ true
    → round has_setjmp c ≡ next event_continue
unfolding round
round-passed has_setjmp (returns event_continue) h = refl
round-passed has_setjmp (returns event_stop) h = absurd (cc)
round-passed has_setjmp throws_module h = refl
round-passed has_setjmp throws_other h = absurd (cc)
round-passed has_setjmp faults h = rw h refl
round-passed has_setjmp announces h = absurd (cc)

-- How a handler that does not survive ends the macro.
abbrev pub end_of : Called → End
end_of (returns r) = released
end_of throws_module = released
end_of throws_other = held
end_of faults = killed
end_of announces = deadlocked

round-ended :
    (has_setjmp : Bool) (c : Called)
    → is_survived has_setjmp c ≡ false
    → round has_setjmp c ≡ ended (end_of c)
unfolding round
round-ended has_setjmp (returns r) h = absurd (cc)
round-ended has_setjmp throws_module h = absurd (cc)
round-ended has_setjmp throws_other h = refl
round-ended has_setjmp faults h = rw h refl
round-ended has_setjmp announces h = refl

-- `FOREACH_MOD` calls every handler once, in their order, and releases the mutex, also where
-- handlers throw `ModuleException` and, with `setjmp`, where they fault. A handler that throws
-- something else leaves it with the mutex held, one that announces an event never leaves it, and the
-- handlers behind such a one are not called.
pub foreach_mod_lem :
    (has_setjmp : Bool) (call : ℕ → Called) (before after : List ℕ) (m : ℕ)
    → All (λ k. is_survived has_setjmp (call k) ≡ true) before
    → is_survived has_setjmp (call m) ≡ false
    → (foreach_mod has_setjmp call before ≡ (released, before))
      × (foreach_mod has_setjmp call (before ++ m ∷ after) ≡ (end_of (call m), before ++ m ∷ []))
unfolding foreach_mod
foreach_mod_lem has_setjmp call [] after m h bad =
    (refl, rw (round-ended has_setjmp (call m) bad, foreach_mod) refl)
foreach_mod_lem has_setjmp call (k ∷ before) after m h bad =
    let (all, some_) = foreach_mod_lem has_setjmp call before after m h.1 bad in
    let (r, e) = round-survived has_setjmp (call k) h.0 in
    (rw (e, foreach_mod) (rw all refl), rw (e, foreach_mod) (rw some_ refl))

-- `FOREACH_RESULT` answers `EVENT_CONTINUE` when every handler passes, each of them called once, and
-- `EVENT_STOP` at the first handler that answers it, behind which none is called; the mutex is
-- released in both cases. A handler passes when it answers `EVENT_CONTINUE`, throws
-- `ModuleException`, or, with `setjmp`, faults.
foreach_result_lem :
    (has_setjmp : Bool) (call : ℕ → Called) (before after : List ℕ) (m : ℕ)
    → All (λ k. is_passed has_setjmp (call k) ≡ true) before
    → call m ≡ returns event_stop
    → (foreach_result has_setjmp call before ≡ (released, event_continue, before))
      × (foreach_result has_setjmp call (before ++ m ∷ after)
          ≡ (released, event_stop, before ++ m ∷ []))
unfolding foreach_result round
foreach_result_lem has_setjmp call [] after m h stop = (refl, rw (stop, foreach_result, round) refl)
foreach_result_lem has_setjmp call (k ∷ before) after m h stop =
    let (all, some_) = foreach_result_lem has_setjmp call before after m h.1 stop in
    let e = round-passed has_setjmp (call k) h.0 in
    (rw (e, foreach_result) (rw all refl), rw (e, foreach_result) (rw some_ refl))
