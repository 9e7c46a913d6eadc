-- ===== src/Base/Text.antt =====
-- Texts as lists of bytes: literals, C strings, and the searches of `std::string`.
mod Find
pub use Find.{
  Bytes, npos, index_of-bound, index_of-take, index_of-nil, find_from_lem, index_of-append,
}
unfoldable pub use Find.{starts_with, index_of, find_from}
use Prim.Native.Char.{code}
use Prim.Native.String.{String}
use Prim.Native.Nat.{ℕ, zero, suc}
use mathlib.Core.Path.{◌≡◌, refl, ap}
use mathlib.Core.Logic.{◌≢◌}
use mathlib.Core.List.{List, [], ◌∷◌}
use mathlib.Core.Logic.{inl, inr}
use mathlib.Core.Bool.{Bool, true, false}
use native.Mathlib.Omega.{arith}
use libjustasic.Base.Lists.{All}
use libjustasic.Base.Tests.{◌==◌, if◌then◌else◌, Bool-cases, ==_iff}

-- The code points of a literal: its bytes, when it is ASCII.
abbrev pub codes : String → Bytes
codes String.[] = []
codes (String.◌∷◌ c s) = code c ∷ codes s

-- The text lacks a byte.
abbrev pub Lacks : ℕ → Bytes → Type 0
Lacks b = All (λ c. c ≢ b)

-- What `c_str()` shows to a reader of a C string: the bytes before the first terminator.
unfoldable pub c_str : Bytes → Bytes
c_str [] = []
c_str (zero ∷ s) = []
c_str (suc c ∷ s) = suc c ∷ c_str s

pub c_str-Lacks : (s : Bytes) → Lacks 0 (c_str s)
unfolding c_str
c_str-Lacks [] = tt
c_str-Lacks (zero ∷ s) = tt
c_str-Lacks (suc c ∷ s) = ((λ e. omega arith), c_str-Lacks s)

pub c_str_self : (s : Bytes) → Lacks 0 s → c_str s ≡ s
unfolding c_str
c_str_self [] h = refl
c_str_self (zero ∷ s) h = absurd (h.0 refl)
c_str_self (suc c ∷ s) h = ap (◌∷◌ (suc c)) (c_str_self s h.1)

-- A test for `Lacks`.
unfoldable pub is_lacking : ℕ → Bytes → Bool
is_lacking b [] = true
is_lacking b (c ∷ s) = if c == b then false else is_lacking b s

pub is_lacking-Lacks : (b : ℕ) (s : Bytes) → is_lacking b s ≡ true → Lacks b s
unfolding is_lacking
is_lacking-Lacks b [] h = tt
is_lacking-Lacks b (c ∷ s) h = elim (Bool-cases (c == b)) [
  | inl e ↦ absurd (ground (arith, h, e))
  | inr e ↦ ((λ d. ground arith), is_lacking-Lacks b s (ground (arith, h, e)))
]
