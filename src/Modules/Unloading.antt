-- ===== src/Modules/Unloading.antt =====
-- `DeleteModule`, `Unload` and `UnloadAll` of src/ModuleHandler.cpp. Modules are told apart by their
-- names, which are the identities of their nodes in the list; a name that is not in the list is a
-- dangling pointer or iterator. `terminates` says which libraries have the function `terminate`, which
-- deletes the module; the answers of `dlclose` only go to the log.
pub mod Leaf
pub mod Kept
pub mod Walk
pub mod Ranked
pub mod Chain
use libjustasic.Base.{
  ℕ, zero, suc, Bool, true, false, List, [], ◌∷◌, Option, none, some, if◌then◌else◌, length,
}
use libjustasic.Base.Text.{Bytes}
use libjustasic.Base.Dict.{bytes_eq}
use libjustasic.Flux.Edit.{is_less}
use libjustasic.Modules.{Module}

pub data Result (A : Type 0) : Type 0 where
  returns : A → Result A
  undefined_behaviour out_of_fuel : Result A

infixl 5 ◌>>=◌
abbrev pub ◌>>=◌ : {A B : Type 0} → Result A → (A → Result B) → Result B
returns a >>= f = f a
undefined_behaviour >>= f = undefined_behaviour
out_of_fuel >>= f = out_of_fuel

-- The node of a name, the one behind it, the first one, and the list without it.
unfoldable pub find_named : List Module → Bytes → Option Module
find_named [] n = none
find_named (m ∷ modules) n = if bytes_eq m.name n then some m else find_named modules n

abbrev pub first_of : List Module → Option Bytes
first_of [] = none
first_of (m ∷ modules) = some m.name

unfoldable pub next_of : List Module → Bytes → Option Bytes
next_of [] n = none
next_of (m ∷ modules) n = if bytes_eq m.name n then first_of modules else next_of modules n

unfoldable pub remove : List Module → Bytes → List Module
remove [] n = []
remove (m ∷ modules) n = if bytes_eq m.name n then modules else m ∷ remove modules n

abbrev pub Deleter : Type 0
Deleter = List Module → Bytes → Result (Bool × List Module)

-- The loop over the copied dependencies of `mod_`: each that is the name deletes `mod_`.
unfoldable pub delete_dependent :
    Deleter → Bytes → Bytes → List Bytes → List Module → Result (List Module)
delete_dependent del n mod_ [] modules = returns modules
delete_dependent del n mod_ (it2 ∷ depends) modules = elim (bytes_eq it2 n) [
  | true ↦ do (done, modules') ← del modules mod_; delete_dependent del n mod_ depends modules'
  | false ↦ delete_dependent del n mod_ depends modules
]

-- The loop over the list from the iterator; `*it++` moves it on before anything is deleted.
unfoldable pub delete_loop : ℕ → Deleter → Bytes → Option Bytes → List Module → Result (List Module)
unfolding delete_dependent
delete_loop zero del n it modules = out_of_fuel
delete_loop (suc rounds) del n none modules = returns modules
delete_loop (suc rounds) del n (some it) modules = elim (find_named modules it) [
  | none ↦ undefined_behaviour
  | some mod_ ↦ do
    modules' ← delete_dependent del n it mod_.dependencies modules
    delete_loop rounds del n (next_of modules it) modules'
]

module _ (terminates : Bytes → Bool) where
  -- `DeleteModule` of the module of a name, with a bound on the depth of the recursion. The list only
  -- shrinks, so its length bounds the rounds. Whatever `dlsym` finds for `terminate` is taken to
  -- delete the module, as the module interface says; a symbol that is there but null, for which
  -- `dlerror` has no error, is left out.
  unfoldable pub delete_module : ℕ → Deleter
  unfolding delete_loop
  delete_module zero modules n = out_of_fuel
  delete_module (suc fuel) modules n = elim (find_named modules n) [
    | none ↦ undefined_behaviour
    | some m ↦
        if m.is_open
        then (do
          modules' ←
              delete_loop (suc (length modules)) (delete_module fuel) n (first_of modules) modules
          returns (terminates n, remove modules' n))
        else returns (false, modules)
  ]

  -- `Unload`
  unfoldable pub unload : ℕ → Deleter
  unfolding delete_module
  unload fuel modules n = elim (find_named modules n) [
    | none ↦ undefined_behaviour
    | some m ↦ if m.permanent then returns (false, modules) else delete_module fuel modules n
  ]

  -- The loop of `UnloadAll`, which always takes the first module.
  unfoldable pub unload_loop : ℕ → ℕ → List Module → Result (List Module)
  unfolding delete_module
  unload_loop zero fuel modules = out_of_fuel
  unload_loop (suc rounds) fuel [] = returns []
  unload_loop (suc rounds) fuel (m ∷ modules) = do
    (done, modules') ← delete_module fuel (m ∷ modules) m.name
    unload_loop rounds fuel modules'

-- `Modules.sort` by the names.
unfoldable pub place : Module → List Module → List Module
place m [] = m ∷ []
place m (m' ∷ modules) = if is_less m'.name m.name then m' ∷ place m modules else m ∷ m' ∷ modules

unfoldable pub sorted : List Module → List Module
unfolding place
sorted [] = []
sorted (m ∷ modules) = place m (sorted modules)

-- `UnloadAll`
unfoldable pub unload_all : (Bytes → Bool) → ℕ → ℕ → List Module → Result (List Module)
unfolding unload_loop sorted
unload_all terminates rounds fuel modules = unload_loop terminates rounds fuel (sorted modules)
