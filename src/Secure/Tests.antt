-- ===== src/Secure/Tests.antt =====
-- Tests of `timing_safe_strcmp`, and its theorems at concrete texts.
use libjustasic.Base.{◌≡◌, ◌↔◌, refl, Bool, true, false, none, some, [], arith}
use libjustasic.Base.Text.{codes}
use libjustasic.Secure.{timing_safe_strcmp, gather, against, char_at, tmax}
use libjustasic.Secure.Laws.{timing_safe_strcmp-same_length}

differ_in_case : timing_safe_strcmp (codes "secret") (codes "Secret") ≡ some false
unfolding timing_safe_strcmp gather against char_at tmax
differ_in_case = refl

empty_passes : timing_safe_strcmp [] (codes "secret") ≡ some true
unfolding timing_safe_strcmp gather
empty_passes = refl

-- With an empty second text `tmax` is the largest `size_t`: the second round reads out of bounds.
read_out_of_bounds : timing_safe_strcmp (codes "ab") [] ≡ none
unfolding timing_safe_strcmp gather against char_at tmax
read_out_of_bounds = refl

timing_safe_strcmp-same_length_example :
    (b : Bool) × (timing_safe_strcmp (codes "ab") (codes "ac") ≡ some b)
    × ((b ≡ true) ↔ (codes "ab" ≡ codes "ac"))
timing_safe_strcmp-same_length_example =
    timing_safe_strcmp-same_length (codes "ab") (codes "ac") refl (omega arith)
