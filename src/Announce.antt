-- ===== src/Announce.antt =====
-- Events of modules: the macros `FOREACH_MOD` and `FOREACH_RESULT` of include/ModuleAnnounce.h, with
-- and without `setjmp`. What a handler does enters by its outcome; it attaches and detaches no handlers.
-- The mutex `eventmux` is no state: how the macro is left says what becomes of it. With `setjmp`, a
-- fault comes back to the macro only if the program installs a signal handler that jumps to `sigbuf`;
-- src/ and include/ have none, and the model presumes it.
pub mod Laws
mod Tests
use libjustasic.Base.{ℕ, Bool, true, false, List, [], ◌∷◌, if◌then◌else◌}

pub data EventResult : Type 0 where
  event_continue event_stop : EventResult

-- A handler returns, throws a `ModuleException`, throws something else, makes a segmentation fault,
-- or announces an event itself, which waits for the mutex that its thread holds.
pub data Called : Type 0 where
  returns : EventResult → Called
  throws_module throws_other faults announces : Called

-- The macro is left with the mutex released, by an exception with the mutex held, by the end of the
-- process, or never.
pub data End : Type 0 where
  released held killed deadlocked : End

-- `setjmp(sigbuf) == 0`, the call, and the `catch`: an end, or the way to the next handler.
pub data Round : Type 0 where
  next : EventResult → Round
  ended : End → Round

pub round : Bool → Called → Round
round has_setjmp (returns r) = next r
round has_setjmp throws_module = next event_continue
round has_setjmp throws_other = ended held
round has_setjmp faults = if has_setjmp then next event_continue else ended killed
round has_setjmp announces = ended deadlocked

-- `FOREACH_MOD`, with the handlers that it calls.
pub foreach_mod : Bool → (ℕ → Called) → List ℕ → End × List ℕ
unfolding round
foreach_mod has_setjmp call [] = (released, [])
foreach_mod has_setjmp call (m ∷ handlers) =
    let (e, called) = foreach_mod has_setjmp call handlers in
    elim (round has_setjmp (call m)) [ next r ↦ (e, m ∷ called) | ended e' ↦ (e', m ∷ []) ]

-- `FOREACH_RESULT`, with the result that it leaves in `v`.
pub foreach_result : Bool → (ℕ → Called) → List ℕ → End × EventResult × List ℕ
unfolding round
foreach_result has_setjmp call [] = (released, event_continue, [])
foreach_result has_setjmp call (m ∷ handlers) =
    let (e, v, called) = foreach_result has_setjmp call handlers in
    elim (round has_setjmp (call m)) [
      | next event_continue ↦ (e, v, m ∷ called)
      | next event_stop ↦ (released, event_stop, m ∷ [])
      | ended e' ↦ (e', event_continue, m ∷ [])
    ]
