-- ===== src/Modules/Unloading/Leaf.antt =====
-- Modules on which none depends.
use libjustasic.Base.{
  ℕ, zero, suc, ◌≡◌, ◌<◌, refl, sym, subst, ap, ◌∙◌, Bool, true, false, List, [], ◌∷◌, ◌++◌, some,
  length, arith, All, All-append_right, append_assoc,
}
use libjustasic.Base.Text.{Bytes}
use libjustasic.Base.Dict.{bytes_eq, bytes_eq_iff}
use libjustasic.Modules.{Module}
use libjustasic.Modules.Unloading.{
  returns, out_of_fuel, ◌>>=◌, find_named, first_of, next_of, remove, Deleter, delete_dependent,
  delete_loop, delete_module, unload_loop, place, sorted, unload_all,
}

-- The module does not depend on the name.
abbrev pub Independent : Bytes → Module → Type 0
Independent n m = All (λ d. bytes_eq d n ≡ false) m.dependencies

-- Modules with different names.
unfoldable pub Distinct : List Module → Type 0
Distinct [] = Unit
Distinct (m ∷ modules) = All (λ x. bytes_eq m.name x.name ≡ false) modules × Distinct modules

delete_dependent-none :
    (del : Deleter) (n mod_ : Bytes) (depends : List Bytes) (modules : List Module)
    → All (λ d. bytes_eq d n ≡ false) depends
    → delete_dependent del n mod_ depends modules ≡ returns modules
unfolding delete_dependent
delete_dependent-none del n mod_ [] modules h = refl
delete_dependent-none del n mod_ (d ∷ depends) modules h =
    rw (h.0, delete_dependent) (delete_dependent-none del n mod_ depends modules h.1)

pub bytes_eq_refl : (n : Bytes) → bytes_eq n n ≡ true
bytes_eq_refl n = (bytes_eq_iff n n).1 refl

-- The node behind some that have other names.
at_node :
    (before after : List Module) (m : Module)
    → Distinct (before ++ m ∷ after)
    → (find_named (before ++ m ∷ after) m.name ≡ some m)
      × (next_of (before ++ m ∷ after) m.name ≡ first_of after)
unfolding find_named next_of Distinct
at_node [] after m h = (rw (bytes_eq_refl m.name) refl, rw (bytes_eq_refl m.name) refl)
at_node (x ∷ before) after m (h, k) =
    let other =
      (All-append_right (λ (y : Module). bytes_eq x.name y.name ≡ false) before (m ∷ after) h).0 in
    let (a, b) = at_node before after m k in (rw other a, rw other b)

delete_loop-none :
    (rounds : ℕ) (del : Deleter) (n : Bytes) (before after : List Module)
    → Distinct (before ++ after)
    → All (Independent n) after
    → length after < rounds
    → delete_loop rounds del n (first_of after) (before ++ after) ≡ returns (before ++ after)
unfolding delete_loop
delete_loop-none zero del n before after h free few = absurd (omega arith)
delete_loop-none (suc rounds) del n before [] h free few = refl
delete_loop-none (suc rounds) del n before (m ∷ after) h free few =
    let (found, next) = at_node before after m h in
    let kept = delete_dependent-none del n m.name m.dependencies (before ++ m ∷ after) free.0 in
    let regroup = append_assoc before (m ∷ []) after in
    let rest =
      delete_loop-none rounds del n (before ++ m ∷ []) after (subst Distinct (sym regroup) h) free.1
        (omega arith) in
    rw (found, delete_loop, kept, ◌>>=◌)
      (ap (λ it. delete_loop rounds del n it (before ++ m ∷ after)) next
        ∙ ap (delete_loop rounds del n (first_of after)) (sym regroup)
        ∙ rest
        ∙ ap returns regroup)

-- A module on which none depends is deleted alone: the others keep their order. It answers whether
-- the library has `terminate`.
pub delete_module-leaf :
    (terminates : Bytes → Bool) (fuel : ℕ) (modules : List Module) (n : Bytes) (m : Module)
    → Distinct modules
    → All (Independent n) modules
    → find_named modules n ≡ some m
    → m.is_open ≡ true
    → delete_module terminates (suc fuel) modules n ≡ returns (terminates n, remove modules n)
unfolding delete_module
delete_module-leaf terminates fuel modules n m h free found open_ =
    let loop =
      delete_loop-none (suc (length modules)) (delete_module terminates fuel) n [] modules h free
        (omega arith) in
    rw (found, delete_module, open_, loop, ◌>>=◌) refl

-- Each module is open, and no module behind it depends on it.
unfoldable pub IsFree : List Module → Type 0
IsFree [] = Unit
IsFree (m ∷ modules) = (m.is_open ≡ true) × All (Independent m.name) (m ∷ modules) × IsFree modules

find_first : (m : Module) (modules : List Module) → find_named (m ∷ modules) m.name ≡ some m
unfolding find_named
find_first m modules = rw (bytes_eq_refl m.name) refl

remove_first : (m : Module) (modules : List Module) → remove (m ∷ modules) m.name ≡ modules
unfolding remove
remove_first m modules = rw (bytes_eq_refl m.name) refl

unload_loop-IsFree :
    (terminates : Bytes → Bool) (fuel : ℕ) (modules : List Module)
    → Distinct modules
    → IsFree modules
    → unload_loop terminates (suc (length modules)) (suc fuel) modules ≡ returns []
unfolding unload_loop Distinct IsFree
unload_loop-IsFree terminates fuel [] h free = refl
unload_loop-IsFree terminates fuel (m ∷ modules) h free =
    let one =
      delete_module-leaf terminates fuel (m ∷ modules) m.name m h free.1 (find_first m modules)
        free.0 in
    rw (one, ◌>>=◌)
      (ap (unload_loop terminates (suc (length modules)) (suc fuel)) (remove_first m modules)
        ∙ unload_loop-IsFree terminates fuel modules h.1 free.2)

length-place :
    (m : Module) (modules : List Module) → length (place m modules) ≡ suc (length modules)
unfolding place
length-place m [] = refl
length-place m (m' ∷ modules) = ground (arith, length-place m modules)

length-sorted : (modules : List Module) → length (sorted modules) ≡ length modules
unfolding sorted
length-sorted [] = refl
length-sorted (m ∷ modules) = length-place m (sorted modules) ∙ ap suc (length-sorted modules)

closed_module :
    (terminates : Bytes → Bool) (fuel : ℕ) (m : Module) (rest : List Module)
    → m.is_open ≡ false
    → delete_module terminates (suc fuel) (m ∷ rest) m.name ≡ returns (false, m ∷ rest)
unfolding delete_module
closed_module terminates fuel m rest closed = rw (find_first m rest, delete_module, closed) refl

stays :
    (terminates : Bytes → Bool) (rounds fuel : ℕ) (m : Module) (rest : List Module)
    → m.is_open ≡ false
    → unload_loop terminates rounds (suc fuel) (m ∷ rest) ≡ out_of_fuel
unfolding unload_loop
stays terminates zero fuel m rest closed = refl
stays terminates (suc rounds) fuel m rest closed =
    rw (closed_module terminates fuel m rest closed, ◌>>=◌)
      (stays terminates rounds fuel m rest closed)

-- `UnloadAll` empties the list, in one round for each module and one more, when in the order of their
-- names none depends on one before it and every module has a handle, and the names differ.
pub unload_all-IsFree :
    (terminates : Bytes → Bool) (fuel : ℕ) (modules : List Module)
    → Distinct (sorted modules)
    → IsFree (sorted modules)
    → unload_all terminates (suc (length modules)) (suc fuel) modules ≡ returns []
unfolding unload_all
unload_all-IsFree terminates fuel modules h free =
    ap (λ n. unload_loop terminates (suc n) (suc fuel) (sorted modules))
      (sym (length-sorted modules))
    ∙ unload_loop-IsFree terminates fuel (sorted modules) h free

-- `DeleteModule` leaves a module without a handle where it is, so when such a one comes first by its
-- name `UnloadAll` does not end: no number of rounds is enough.
unload_all-no_handle :
    (terminates : Bytes → Bool) (rounds fuel : ℕ) (modules : List Module) (m : Module)
    (rest : List Module)
    → sorted modules ≡ m ∷ rest
    → m.is_open ≡ false
    → unload_all terminates rounds (suc fuel) modules ≡ out_of_fuel
unfolding unload_all
unload_all-no_handle terminates rounds fuel modules m rest first closed =
    ap (unload_loop terminates rounds (suc fuel)) first ∙ stays terminates rounds fuel m rest closed
