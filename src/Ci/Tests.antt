-- ===== src/Ci/Tests.antt =====
-- Tests of the case-insensitive comparison, and its theorems at concrete texts.
use libjustasic.Base.{◌≡◌, ◌↔◌, refl, true, false, ℕ, [], ◌∷◌, none, some, if◌then◌else◌}
use libjustasic.Base.Text.{Bytes, codes, c_str}
use libjustasic.Ci.{fold, compare, string_compare, equals_ci, less}
use libjustasic.Ci.Laws.{folded, equals_ci_iff}
use libjustasic.Ci.Map.{InsensitiveMap, at_key, put_at, erase_key, IsSorted}
use libjustasic.Ci.Map.Keys.{Key, Key-equals_ci}
use libjustasic.Ci.Map.Contents.{insensitive_map_lem}
use mathlib.Core.Quot

brackets_differ : equals_ci (codes "[a]") (codes "{A}") ≡ false
unfolding equals_ci string_compare compare fold c_str
brackets_differ = refl

letters_agree : equals_ci (codes "MixedCase") (codes "mIXEDcASE") ≡ true
unfolding equals_ci string_compare compare fold c_str
letters_agree = refl

shorter_first : less (codes "AB") (codes "abc") ≡ true
unfolding less string_compare compare fold c_str
shorter_first = refl

equals_ci_iff_example :
    (equals_ci (codes "On") (codes "oN") ≡ true) ↔ (folded (codes "On") ≡ folded (codes "oN"))
equals_ci_iff_example = equals_ci_iff (codes "On") (codes "oN")

Key-equals_ci_example :
    (◌≡◌ {A = Key} (Quot.mk (codes "On")) (Quot.mk (codes "oN")))
    ↔ (equals_ci (codes "On") (codes "oN") ≡ true)
Key-equals_ci_example = Key-equals_ci (codes "On") (codes "oN")

abbrev two_keys : InsensitiveMap ℕ
two_keys = (codes "Host", 1) ∷ ((codes "port", 2) ∷ [])

two_keys-IsSorted : IsSorted two_keys
unfolding IsSorted less string_compare compare fold c_str
two_keys-IsSorted = ((refl, tt), (tt, tt))

insensitive_map_lem_example :
    IsSorted (put_at (codes "PORT") 3 two_keys)
    × IsSorted (erase_key (codes "PORT") two_keys)
    × ((j : Bytes)
        → (at_key j (put_at (codes "PORT") 3 two_keys)
            ≡ (if equals_ci (codes "PORT") j then some 3 else at_key j two_keys))
          × (at_key j (erase_key (codes "PORT") two_keys)
              ≡ (if equals_ci (codes "PORT") j then none else at_key j two_keys)))
    × ((i j : Bytes) → equals_ci i j ≡ true → at_key i two_keys ≡ at_key j two_keys)
insensitive_map_lem_example = insensitive_map_lem (codes "PORT") 3 two_keys two_keys-IsSorted
