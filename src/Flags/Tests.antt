-- ===== src/Flags/Tests.antt =====
-- Tests of the flag sets, and their theorems at concrete sets.
use libjustasic.Base.{◌≡◌, refl, true, false, [], ◌∷◌, ◌==◌, ltb, if◌then◌else◌}
use libjustasic.Flags.{
  ◌>>=◌, ok, undefined_behaviour, Bits, no_flags, set_flag, remove_flag, has_flag, flag_count,
  default_size,
}
use libjustasic.Flags.Laws.{has_flag-set_flag}

abbrev two_of_three : Bits
two_of_three = true ∷ false ∷ true ∷ []

removed : (remove_flag two_of_three 2 ≡ ok (true ∷ false ∷ false ∷ []))
unfolding remove_flag
removed = refl

counted : flag_count two_of_three ≡ 2
unfolding flag_count
counted = refl

beyond_the_default : set_flag (no_flags default_size) 128 ≡ undefined_behaviour
unfolding set_flag no_flags
beyond_the_default = refl

has_flag-set_flag_example :
    ((set_flag two_of_three 1 >>= λ bits'. has_flag bits' 0) ≡ (
      if ltb 1 3
      then (if 1 == 0 then ok true else has_flag two_of_three 0)
      else undefined_behaviour))
    × ((remove_flag two_of_three 1 >>= λ bits'. has_flag bits' 0) ≡ (
        if ltb 1 3
        then (if 1 == 0 then ok false else has_flag two_of_three 0)
        else undefined_behaviour))
has_flag-set_flag_example = has_flag-set_flag two_of_three 1 0
