-- ===== src/Cstr.antt =====
-- `NormalizePath` and `memrev` of include/cstr.h.
pub mod Reversal
mod Tests
use libjustasic.Base.{
  ℕ, zero, suc, ◌+◌, ◌-◌, ◌≡◌, ◌≢◌, refl, Bool, true, false, List, [], ◌∷◌, ◌++◌, if◌then◌else◌,
  ltb, ◌==◌, length, get_or, set, map, ap,
}
use libjustasic.Base.Text.{Bytes}

-- The test in the loop's body.
abbrev pub slash : ℕ → ℕ
slash c = if c == b'\\' then b'/' else c

-- The loop behind the character `c`, which was found not to end the text: `++` has moved on, so the
-- next character is rewritten and then tested.
pub normalize_loop : ℕ → Bytes → Bytes
normalize_loop c [] = c ∷ []
normalize_loop c (d ∷ path) = c ∷ normalize_loop (slash d) path

pub normalize_path : Bytes → Bytes
unfolding normalize_loop
normalize_path [] = []
normalize_path (c ∷ path) = normalize_loop c path

-- Every backslash becomes a slash, but the one that begins the path stays.
normalize_path_lem : (c : ℕ) (path : Bytes) → normalize_path (c ∷ path) ≡ c ∷ map slash path
unfolding normalize_path normalize_loop
normalize_path_lem c [] = refl
normalize_path_lem c (d ∷ path) = ap (◌∷◌ c) (normalize_path_lem (slash d) path)

-- The two stores of a round of `memrev`.
abbrev pub swap : Bytes → ℕ → ℕ → Bytes
swap xs s e = set (set xs s (get_or xs e 0)) e (get_or xs s 0)

-- The loop: `s` goes up and `e`, one past the last index, goes down, until they meet.
pub memrev_loop : ℕ → ℕ → ℕ → Bytes → Bytes
memrev_loop zero s e dest = dest
memrev_loop (suc fuel) s e dest =
    let next = memrev_loop fuel (s + 1) (e - 1) (swap dest s (e - 1)) in
    if ltb (s + 1) e then next else dest

-- `memrev` of a whole block: its number of bytes is fuel enough.
pub memrev : Bytes → Bytes
unfolding memrev_loop
memrev src = memrev_loop (length src) 0 (length src) src
