-- ===== src/Log/Tests.antt =====
-- Statements that log.
use libjustasic.Base.{◌≡◌, refl, [], ◌∷◌}
use libjustasic.Base.Text.{codes, c_str}
use libjustasic.Log.{info, construct, statement, destruct, calls, call}

with_arguments :
    statement (construct info (codes "{} of {}")) ((codes "1" ∷ codes "2" ∷ []) ∷ []) []
    ≡ record { level = info; format = codes "{} of {}"; arguments = codes "1" ∷ codes "2" ∷ [] }
      ∷ []
unfolding construct c_str statement destruct calls call
with_arguments = refl

without :
    statement (construct info (codes "end")) [] []
    ≡ record { level = info; format = codes "end"; arguments = [] } ∷ []
unfolding construct c_str statement destruct calls call
without = refl
