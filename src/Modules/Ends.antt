-- ===== src/Modules/Ends.antt =====
-- Modules whose dependencies form no cycle.
use libjustasic.Base.{
  ℕ, zero, suc, ◌≡◌, ◌<◌, refl, List, [], ◌∷◌, ◌++◌, Option, some, All, All-map, arith, Bool-cases,
  inl, inr,
}
use libjustasic.Base.Text.{Bytes, codes}
use libjustasic.Modules.{
  Module, find_module, Init, Library, unreadable, broken, library, Ended, Loader, is_loaded, is_ok,
  after_depend, depend_ended, suffixed, returned, mod_err_exists, load_depends, start, open_library,
  load_module,
}

-- The code comes to an end.
abbrev Ends : Option (List Module × Ended) → Type 0
Ends o = (r : List Module × Ended) × (o ≡ some r)

after_depend-Ends :
    (o : Option (List Module × Ended)) (next : List Module → Option (List Module × Ended))
    → Ends o
    → ((ms : List Module) → Ends (next ms))
    → Ends (after_depend o next)
after_depend-Ends o next ((ms, e), h) k = elim (Bool-cases (is_ok e)) [
  | inl q ↦ let (r, l) = k ms in (r, rw (h, after_depend, q) l)
  | inr q ↦ ((ms, depend_ended e), rw (h, after_depend, q) refl)
]

load_depends-Ends :
    (load : Loader) (depends : List Bytes)
    → All (λ d. (ms : List Module) → Ends (load ms (codes "modules/" ++ d))) depends
    → (ms : List Module) → Ends (load_depends load depends ms)
unfolding load_depends
load_depends-Ends load [] h ms = (_, refl)
load_depends-Ends load (d ∷ depends) h ms = elim (Bool-cases (is_loaded (find_module ms d))) [
  | inl q ↦ let (r, e) = load_depends-Ends load depends h.1 ms in (r, rw q e)
  | inr q ↦
      let (r, e) =
        after_depend-Ends (load ms (codes "modules/" ++ d)) (λ ms. load_depends load depends ms)
          (h.0 ms) (load_depends-Ends load depends h.1) in
      (r, rw q e)
]

open_library-Ends :
    (load : Loader) (random base modname : Bytes) (l : Library) (ms : List Module)
    → ((depends : List Bytes) (init : Bytes → Init)
        → l ≡ library depends init
        → Ends (load_depends load depends ms))
    → Ends (open_library load random base modname l ms)
unfolding open_library
open_library-Ends load random base modname unreadable ms h = (_, refl)
open_library-Ends load random base modname broken ms h = (_, refl)
open_library-Ends load random base modname (library depends init) ms h =
    let ((ms', e), q) = h depends init refl in
    elim (Bool-cases (is_ok e)) [
      | inl ok_ ↦ (
        start (codes "runtime/" ++ (suffixed base ++ (codes "." ++ random))) (suffixed modname)
            depends (init base) ms',
        rw (q, open_library, ok_) refl,
      )
      | inr failed_ ↦ ((ms', e), rw (q, open_library, failed_) refl)
    ]

-- Where every library has a rank above those of the libraries that it depends on, `LoadModule` comes
-- to an end, with a code or in a failed `assert`, within a depth of the recursion above the rank,
-- whatever is loaded and whatever fails on the way.
pub load_module-Ends :
    (basename : Bytes → Bytes) (shared_object : Bytes → Library) (random : Bytes) (rank : Bytes → ℕ)
    → ((n : Bytes) (depends : List Bytes) (init : Bytes → Init)
        → shared_object n ≡ library depends init
        → All (λ d. rank (codes "modules/" ++ d) < rank n) depends)
    → (fuel : ℕ) (ms : List Module) (n : Bytes) → rank n < fuel
    → Ends (load_module basename shared_object random fuel ms n)
unfolding load_module
load_module-Ends basename shared_object random rank ranked zero ms n h = absurd (omega arith)
load_module-Ends basename shared_object random rank ranked (suc fuel) ms [] h = (_, refl)
load_module-Ends basename shared_object random rank ranked (suc fuel) ms (c ∷ n) h =
    let load = load_module basename shared_object random fuel in
    let opened =
      open_library-Ends load random (basename (c ∷ n)) (c ∷ n) (shared_object (c ∷ n)) ms
        (λ depends init e.
          load_depends-Ends load depends
            (All-map (λ d. rank (codes "modules/" ++ d) < rank (c ∷ n)) _
              (λ d l ms.
                load_module-Ends basename shared_object random rank ranked fuel ms
                  (codes "modules/" ++ d) (omega arith))
              depends (ranked (c ∷ n) depends init e))
            ms) in
    elim (Bool-cases (is_loaded (find_module ms (basename (c ∷ n))))) [
      | inl q ↦ ((ms, returned mod_err_exists), rw q refl)
      | inr q ↦ (opened.0, rw q opened.1)
    ]
