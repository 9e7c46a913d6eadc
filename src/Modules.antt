-- ===== src/Modules.antt =====
-- Loading of modules: src/ModuleHandler.cpp, src/Module.cpp and include/Module.h. What the shared
-- objects hold, and the path functions of the system, are parameters.
pub mod Names
pub mod Loading
pub mod Ends
pub mod Success
pub mod Unloading
pub mod Startup
pub mod About
mod Tests
use libjustasic.Base.{
  ℕ, zero, suc, ◌≡◌, refl, Bool, true, false, List, [], ◌∷◌, ◌++◌, Option, none, some,
  if◌then◌else◌, ◌&&◌,
}
use libjustasic.Base.Text.{Bytes, codes}
use libjustasic.Ci.{equals_ci}
use libjustasic.Flux.{search}

pub data ModErr : Type 0 where
  mod_err_ok mod_err_memory mod_err_params mod_err_exists mod_err_noexist mod_err_noload : ModErr
  mod_err_unknown mod_err_file_io mod_err_exception mod_err_depends : ModErr

pub module_strerror : ModErr → Bytes
module_strerror mod_err_ok = codes "Module Loaded Ok"
module_strerror mod_err_memory = codes "Module Memory Error"
module_strerror mod_err_params = codes "invalid module parameters"
module_strerror mod_err_exists = codes "module alread loaded"
module_strerror mod_err_noexist = codes "Module Does Not Exist"
module_strerror mod_err_noload = codes "Unable to load module"
module_strerror mod_err_unknown = codes "Unknown error"
module_strerror mod_err_file_io = codes "File I/O Error"
module_strerror mod_err_exception = codes "Module threw an exception"
module_strerror mod_err_depends = codes "Module dependency could not be satisfied"

pub record Module : Type 0 where
  pub name : Bytes
  pub filename : Bytes
  pub filepath : Bytes
  pub dependencies : List Bytes
  pub permanent : Bool
  pub is_open : Bool

unfoldable pub find_module : List Module → Bytes → Option Module
find_module [] name = none
find_module (m ∷ modules) name =
    let rest = find_module modules name in if equals_ci m.name name then some m else rest

-- The constructor of a module of a name: the list with it, or `none` for `ModuleException`.
unfoldable pub construct : Bytes → Bool → List Module → Option (List Module)
construct n permanent modules = elim (find_module modules n) [
  | some m ↦ none
  | none ↦ some (
      modules
      ++ record {
        name = n;
        filename = [];
        filepath = [];
        dependencies = [];
        permanent = permanent;
        is_open = false;
      }
        ∷ [])
]

-- The function `initialization` of a shared object: missing, throwing `ModuleException`, or making a
-- module of a name.
pub data Init : Type 0 where
  missing throwing : Init
  making : Bytes → Bool → Init

-- A shared object as the loader sees it: a file that can be neither opened nor made, one that `dlopen`
-- refuses, or its `dependencies` and the function, which is given the base name.
pub data Library : Type 0 where
  unreadable broken : Library
  library : List Bytes → (Bytes → Init) → Library

-- How a load ends: with a code, or in the failed `assert` of the copy.
pub data Ended : Type 0 where
  returned : ModErr → Ended
  aborted : Ended

-- The fields that the loader sets on the new module, the last of the list.
unfoldable pub complete : Bytes → Bytes → List Bytes → List Module → List Module
complete filepath filename depends [] = []
complete filepath filename depends (m ∷ []) =
    record m { filepath = filepath; filename = filename; dependencies = depends; is_open = true }
    ∷ []
complete filepath filename depends (m ∷ m' ∷ modules) =
    m ∷ complete filepath filename depends (m' ∷ modules)

abbrev pub Loader : Type 0
Loader = List Module → Bytes → Option (List Module × Ended)

abbrev pub is_loaded : Option Module → Bool
is_loaded none = false
is_loaded (some m) = true

abbrev pub is_ok : Ended → Bool
is_ok (returned mod_err_ok) = true
is_ok _ = false

-- The code after a dependency that failed to load.
abbrev pub depend_ended : Ended → Ended
depend_ended aborted = aborted
depend_ended (returned e) = returned mod_err_depends

abbrev pub after_depend :
    Option (List Module × Ended)
    → (List Module → Option (List Module × Ended))
    → Option (List Module × Ended)
after_depend none next = none
after_depend (some (modules, e)) next =
    let rest = next modules in if is_ok e then rest else some (modules, depend_ended e)

-- The loop over the dependencies; its code is that of the whole.
unfoldable pub load_depends : Loader → List Bytes → List Module → Option (List Module × Ended)
load_depends load [] modules = some (modules, returned mod_err_ok)
load_depends load (it ∷ depends) modules =
    let rest = load_depends load depends modules in
    if is_loaded (find_module modules it)
    then rest
    else after_depend (load modules (codes "modules/" ++ it)) (λ ms. load_depends load depends ms)

-- The end of `LoadModule`, with the dependencies loaded.
unfoldable pub start : Bytes → Bytes → List Bytes → Init → List Module → List Module × Ended
start mdir filename depends missing modules = (modules, returned mod_err_noload)
start mdir filename depends throwing modules = (modules, returned mod_err_exception)
start mdir filename depends (making n permanent) modules = elim (construct n permanent modules) [
  | none ↦ (modules, returned mod_err_exception)
  | some modules' ↦ (complete mdir filename depends modules', returned mod_err_ok)
]

abbrev pub suffixed : Bytes → Bytes
suffixed s = if search s (codes ".so") then s else s ++ codes ".so"

-- What is done with the shared object. Its copy stands in a file with a random text in its name.
unfoldable pub open_library :
    Loader → Bytes → Bytes → Bytes → Library → List Module → Option (List Module × Ended)
open_library load random base modname unreadable modules = some (modules, aborted)
open_library load random base modname broken modules = some (modules, returned mod_err_noload)
open_library load random base modname (library depends init) modules =
    elim (load_depends load depends modules) [
      | none ↦ none
      | some (modules', e) ↦
          if is_ok e
          then some (
              start (codes "runtime/" ++ (suffixed base ++ (codes "." ++ random)))
                (suffixed modname) depends (init base) modules')
          else some (modules', e)
    ]

module _ (basename : Bytes → Bytes) (shared_object : Bytes → Library) (random : Bytes) where
  -- `LoadModule` with a bound on the depth of the dependencies.
  unfoldable pub load_module : ℕ → Loader
  load_module zero modules modname = none
  load_module (suc fuel) modules [] = some (modules, returned mod_err_params)
  load_module (suc fuel) modules (c ∷ modname) =
      let rest =
        open_library (load_module fuel) random (basename (c ∷ modname)) (c ∷ modname)
          (shared_object (c ∷ modname)) modules in
      if is_loaded (find_module modules (basename (c ∷ modname)))
      then some (modules, returned mod_err_exists)
      else rest
