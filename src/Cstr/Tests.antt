-- ===== src/Cstr/Tests.antt =====
-- Tests of the C string helpers, and their theorems at concrete texts.
use libjustasic.Base.{◌≡◌, refl, ◌∷◌, [], ◌-◌, length, get_or, arith}
use libjustasic.Base.Text.{codes}
use libjustasic.Cstr.{memrev, memrev_loop}
use libjustasic.Cstr.Reversal.{memrev_lem}

reversed : memrev (1 ∷ 2 ∷ 3 ∷ 4 ∷ 5 ∷ []) ≡ 5 ∷ 4 ∷ 3 ∷ 2 ∷ 1 ∷ []
unfolding memrev memrev_loop
reversed = refl

memrev_lem_example :
    (length (memrev (codes "abc")) ≡ 3)
    × (get_or (memrev (codes "abc")) 0 0 ≡ get_or (codes "abc") (3 - 1 - 0) 0)
memrev_lem_example = memrev_lem (codes "abc") 0 (omega arith)
