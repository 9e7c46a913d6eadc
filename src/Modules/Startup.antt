-- ===== src/Modules/Startup.antt =====
-- `LoadModules` and `SanitizeRuntime` of src/ModuleHandler.cpp.
use libjustasic.Base.{
  ℕ, ◌-◌, ◌≡◌, Bool, true, false, not, ◌&&◌, ◌||◌, List, [], ◌∷◌, Option, none, some, if◌then◌else◌,
  length, take, drop, ◌==◌, subst, Bool-cases, inl, inr, refl,
}
use libjustasic.Base.Text.{Bytes, codes}
use libjustasic.Base.Dict.{bytes_eq}
use libjustasic.Flux.Edit.{is_less}
use libjustasic.File.Directory.{make_directory, directory_list}
use libjustasic.Modules.{Module, Library, Ended, returned, aborted, Loader, load_module}
use libjustasic.Modules.Names.{Grows, OnlyAdds, Grows-refl, Grows-trans, load_module-Grows}

-- What `SanitizeRuntime` does: the calls of `mkdir`, or the files that it deletes.
pub data Sanitized : Type 0 where
  made : List Bytes → Sanitized
  deleted : List Bytes → Sanitized

abbrev pub made_of : Option (List Bytes) → Option Sanitized
made_of none = none
made_of (some calls) = some (made calls)

abbrev pub deleted_of : Option (List Bytes) → Option Sanitized
deleted_of none = none
deleted_of (some files) = some (deleted files)

unfoldable pub sanitize_runtime : ℕ → (Bytes → Bool) → (Bytes → List Bytes) → Option Sanitized
sanitize_runtime depth is_dir get =
    if is_dir (codes "runtime/")
    then deleted_of (directory_list depth is_dir get (codes "runtime/"))
    else made_of (make_directory (codes "runtime/"))

-- The regular expression `(.*)\.so$`, in which a dot is no line terminator.
unfoldable pub is_shared_object : Bytes → Bool
is_shared_object s =
    bytes_eq (drop (length s - 3) s) (codes ".so") && no_line_end (take (length s - 3) s)
  where
    no_line_end : Bytes → Bool
    no_line_end [] = true
    no_line_end (c ∷ s) = not (c == 10 || c == 13) && no_line_end s

-- `std::sort`
unfoldable pub place_file : Bytes → List Bytes → List Bytes
place_file f [] = f ∷ []
place_file f (g ∷ files) = if is_less g f then g ∷ place_file f files else f ∷ g ∷ files

unfoldable pub sorted_files : List Bytes → List Bytes
unfolding place_file
sorted_files [] = []
sorted_files (f ∷ files) = place_file f (sorted_files files)

-- The loop over the files; the code of a load only goes to the log.
abbrev pub is_aborted : Ended → Bool
is_aborted aborted = true
is_aborted (returned e) = false

abbrev pub and_then :
    Option (List Module × Ended) → (List Module → Option (List Module)) → Option (List Module)
and_then none next = none
and_then (some (modules, e)) next = let rest = next modules in if is_aborted e then none else rest

unfoldable pub load_files : Loader → List Bytes → List Module → Option (List Module)
load_files load [] modules = some modules
load_files load (file ∷ files) modules = elim (is_shared_object file) [
  | true ↦ and_then (load modules file) (λ modules'. load_files load files modules')
  | false ↦ load_files load files modules
]

-- `LoadModules` behind `SanitizeRuntime`; `none` for a listing that does not end, a load that does
-- not, or a failed `assert`.
unfoldable pub load_modules :
    (Bytes → Bytes)
    → (Bytes → Library)
    → Bytes
    → ℕ
    → Option (List Bytes)
    → List Module
    → Option (List Module)
unfolding load_files sorted_files
load_modules basename shared_object random fuel none modules = none
load_modules basename shared_object random fuel (some files) modules =
    load_files (load_module basename shared_object random fuel) (sorted_files files) modules

and_then-Grows :
    (ms ms' : List Module) (r : Option (List Module × Ended))
    (next : List Module → Option (List Module))
    → ((m1 : List Module) (e1 : Ended) → r ≡ some (m1, e1) → Grows ms m1)
    → ((m1 : List Module) → next m1 ≡ some ms' → Grows m1 ms')
    → and_then r next ≡ some ms'
    → Grows ms ms'
and_then-Grows ms ms' none next g k h = absurd (cc)
and_then-Grows ms ms' (some (m1, aborted)) next g k h = absurd (cc)
and_then-Grows ms ms' (some (m1, returned e)) next g k h =
    Grows-trans ms m1 ms' (g m1 (returned e) refl) (k m1 h)

load_files-Grows :
    (load : Loader)
    → OnlyAdds load
    → (files : List Bytes) (ms ms' : List Module) → load_files load files ms ≡ some ms'
    → Grows ms ms'
unfolding load_files
load_files-Grows load adds [] ms ms' h = let q : ms ≡ ms' = cc in subst (Grows ms) q (Grows-refl ms)
load_files-Grows load adds (file ∷ files) ms ms' h = elim (Bool-cases (is_shared_object file)) [
  | inl e ↦
      and_then-Grows ms ms' (load ms file) (λ m. load_files load files m)
        (λ m1 e1 l. adds ms file m1 e1 l) (λ m1 l. load_files-Grows load adds files m1 ms' l)
        (let q = rw (e, load_files) at h in q)
  | inr e ↦ load_files-Grows load adds files ms ms' (let q = rw (e, load_files) at h in q)
]

-- Loading all files of a directory removes no module, brings new ones behind the old ones, and keeps
-- unique names unique, whichever of the loads fail.
load_modules-Grows :
    (basename : Bytes → Bytes) (shared_object : Bytes → Library) (random : Bytes) (fuel : ℕ)
    (files : List Bytes) (ms ms' : List Module)
    → load_modules basename shared_object random fuel (some files) ms ≡ some ms'
    → Grows ms ms'
unfolding load_modules
load_modules-Grows basename shared_object random fuel files ms ms' h =
    load_files-Grows (load_module basename shared_object random fuel)
      (λ ms n ms' e l. load_module-Grows basename shared_object random fuel ms n ms' e l)
      (sorted_files files) ms ms' h
