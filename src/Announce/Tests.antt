-- ===== src/Announce/Tests.antt =====
-- Events with three handlers.
use libjustasic.Base.{ℕ, zero, suc}
use libjustasic.Announce.{event_stop, Called, returns, throws_module, throws_other, faults}

abbrev handler : ℕ → Called
handler zero = throws_module
handler (suc zero) = faults
handler (suc (suc zero)) = returns event_stop
handler (suc (suc (suc m))) = throws_other
