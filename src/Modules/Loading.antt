-- ===== src/Modules/Loading.antt =====
-- Modules that depend on each other.
use libjustasic.Base.{ℕ, zero, suc, ◌≡◌, refl, List, ◌∷◌, ◌++◌, none}
use libjustasic.Base.Text.{Bytes, codes}
use libjustasic.Modules.{
  Module, find_module, Init, Library, library, Loader, load_depends, open_library, load_module,
}

load_depends-none :
    (load : Loader) (d : Bytes) (depends : List Bytes) (ms : List Module)
    → find_module ms d ≡ none
    → load ms (codes "modules/" ++ d) ≡ none
    → load_depends load (d ∷ depends) ms ≡ none
unfolding load_depends
load_depends-none load d depends ms absent h = rw (absent, h) refl

open_library-none :
    (load : Loader) (random base modname d : Bytes) (depends : List Bytes) (init : Bytes → Init)
    (ms : List Module)
    → load_depends load (d ∷ depends) ms ≡ none
    → open_library load random base modname (library (d ∷ depends) init) ms ≡ none
unfolding open_library
open_library-none load random base modname d depends init ms h = rw (h, open_library) refl

-- Where each library of an unending sequence depends first on the next one, as in a cycle, and none
-- of them is loaded, loading one of them does not end: no depth of the recursion is enough.
pub load_module-cycle :
    (basename : Bytes → Bytes) (shared_object : Bytes → Library) (random : Bytes) (fuel : ℕ)
    (ms : List Module) (dep : ℕ → Bytes) (others : ℕ → List Bytes) (init : ℕ → Bytes → Init)
    → ((k : ℕ) → find_module ms (dep k) ≡ none)
    → ((k : ℕ) → find_module ms (basename (codes "modules/" ++ dep k)) ≡ none)
    → ((k : ℕ)
        → shared_object (codes "modules/" ++ dep k) ≡ library (dep (suc k) ∷ others k) (init k))
    → (k : ℕ) → load_module basename shared_object random fuel ms (codes "modules/" ++ dep k) ≡ none
unfolding load_module
load_module-cycle basename shared_object random zero ms dep others init absent fresh object k = refl
load_module-cycle basename shared_object random (suc fuel) ms dep others init absent fresh object
      k =
    let name = codes "modules/" ++ dep k in
    let load = load_module basename shared_object random fuel in
    let deeper =
      load_module-cycle basename shared_object random fuel ms dep others init absent fresh object
        (suc k) in
    let opened : open_library load random (basename name) name (shared_object name) ms ≡ none =
      rw (object k) (
        open_library-none load random (basename name) name (dep (suc k)) (others k) (init k) ms
          (load_depends-none load (dep (suc k)) (others k) ms (absent (suc k)) deeper)) in
    rw (fresh k) opened
