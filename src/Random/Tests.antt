-- ===== src/Random/Tests.antt =====
-- The random texts at concrete draws.
use libjustasic.Base.{◌≡◌, refl, [], ◌∷◌, some, none}
use libjustasic.Base.Text.{codes}
use libjustasic.Random.{characters, random_data_generator}

drawn : random_data_generator (0 ∷ 26 ∷ 61 ∷ []) ≡ some (codes "Aa9")
unfolding random_data_generator characters
drawn = refl

past : random_data_generator (0 ∷ 63 ∷ []) ≡ none
unfolding random_data_generator characters
past = refl
