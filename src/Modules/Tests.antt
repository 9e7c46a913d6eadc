-- ===== src/Modules/Tests.antt =====
-- Loads of small modules.
use libjustasic.Base.{
  List, ℕ, zero, suc, ◌≡◌, refl, true, false, [], ◌∷◌, ◌++◌, if◌then◌else◌, ◌==◌,
}
use libjustasic.Base.Text.{Bytes, codes, find_from}
use libjustasic.Flux.{search, find}
use libjustasic.Modules.{
  Module, mod_err_ok, find_module, construct, Library, library, making, returned, complete,
  load_depends, start, open_library, load_module,
}
use libjustasic.Modules.Names.{Grows, load_module-Grows}
use libjustasic.Base.Dict.{bytes_eq}
use libjustasic.Flux.Edit.{is_less}
use libjustasic.Flux.Edit
use libjustasic.Modules.Unloading.{
  returns, undefined_behaviour, delete_module, unload_all, sorted, place,
}
use libjustasic.Modules.Unloading.Leaf.{IsFree, Distinct, unload_all-IsFree}
use libjustasic.Base.{
  none, some, ◌-◌, ◌++◌, length-drop, drop, length, ◌⊎◌, inl, inr, All, ◌<◌, subst, sym, ap, arith,
}
use libjustasic.Base.Text.{c_str}
use libjustasic.Ci.Laws.{folded, equals_ci_iff}
use libjustasic.Modules.{Init, Ended}
use libjustasic.Modules.Ends.{load_module-Ends}
use libjustasic.Modules.Loading.{load_module-cycle}
use libjustasic.Modules.Success.{Added, load_module-Added}
use libjustasic.Modules.Unloading.{find_named, delete_loop, delete_dependent, next_of, remove}
use libjustasic.Modules.Unloading.Kept.{Kept, delete_module-Kept}
use libjustasic.Base.{◌⊎◌, Bool}
use libjustasic.Modules.Unloading.{returns, undefined_behaviour}
use libjustasic.Modules.Unloading.Ranked.{delete_module-IsRanked}
use libjustasic.Modules.Unloading.Chain.{delete_module-chain}

abbrev same_name : Bytes → Bytes
same_name n = n

abbrev alone : Bytes → Library
alone n = library [] (λ base. making base true)

abbrev loaded : Module
loaded = record {
  name = codes "a.so";
  filename = codes "a.so";
  filepath = codes "runtime/a.so.x";
  dependencies = [];
  permanent = true;
  is_open = true;
}

load_module-Grows_example : Grows [] (loaded ∷ [])
unfolding load_module open_library load_depends start construct find_module complete search find
    find_from
load_module-Grows_example =
    load_module-Grows same_name alone (codes "x") 1 [] (codes "a.so") (loaded ∷ [])
      (returned mod_err_ok) refl

-- Two libraries that depend on each other.
abbrev turn : ℕ → Bytes
turn zero = codes "a"
turn (suc zero) = codes "b"
turn (suc (suc k)) = turn k

abbrev other : Bytes → Bytes
other [] = []
other (c ∷ []) = if c == b'a' then codes "b" else codes "a"
other (c ∷ c' ∷ n) = other (c' ∷ n)

abbrev both : Bytes → Library
both n = library (other n ∷ []) (λ base. making base false)

both_lem :
    (k : ℕ)
    → both (codes "modules/" ++ turn k) ≡ library (turn (suc k) ∷ []) (λ base. making base false)
both_lem zero = refl
both_lem (suc zero) = refl
both_lem (suc (suc k)) = both_lem k

abbrev named : Bytes → List Bytes → Module
named n depends = record {
  name = n;
  filename = [];
  filepath = [];
  dependencies = depends;
  permanent = false;
  is_open = true;
}

abbrev base_module : Module
base_module = named (codes "base") []

abbrev mid_module : Module
mid_module = named (codes "mid") (codes "base" ∷ [])

abbrev top_module : Module
top_module = named (codes "top") (codes "mid" ∷ [])

delete_module-chain_example :
    delete_module (λ n. true) 3 (base_module ∷ mid_module ∷ top_module ∷ []) (codes "base")
    ≡ undefined_behaviour
unfolding bytes_eq
delete_module-chain_example =
    delete_module-chain base_module mid_module top_module refl refl refl (λ n. true) 0 refl refl
      refl refl refl refl

-- The order of the names is the one in which they can be unloaded.
abbrev first_module : Module
first_module = named (codes "a") (codes "b" ∷ [])

abbrev second_module : Module
second_module = named (codes "b") []

unload_all-IsFree_example :
    unload_all (λ n. true) 3 1 (second_module ∷ first_module ∷ []) ≡ returns []
unfolding sorted place is_less Edit.compare Distinct IsFree bytes_eq
unload_all-IsFree_example =
    unload_all-IsFree (λ n. true) 0 (second_module ∷ first_module ∷ []) ((refl, tt), (tt, tt))
      (refl, ((refl, tt), (tt, tt)), (refl, (tt, tt), tt))

delete_module-Kept_example :
    Kept [] (second_module ∷ first_module ∷ []) × (true ≡ true → find_named [] (codes "b") ≡ none)
unfolding Distinct bytes_eq delete_module delete_loop delete_dependent find_named next_of remove
delete_module-Kept_example =
    delete_module-Kept (λ n. true) 2 (second_module ∷ first_module ∷ []) [] (codes "b") true
      ((refl, tt), (tt, tt)) refl

-- A library "ab" that depends on "b".
abbrev shelf_deps : Bytes → List Bytes
shelf_deps (c ∷ d ∷ n) = (d ∷ n) ∷ []
shelf_deps _ = []

abbrev shelf : Bytes → Library
shelf n = library (shelf_deps (drop 8 n)) (λ base. making base false)

abbrev OnShelf : Bytes → Type 0
OnShelf n = (n ≡ codes "ab") ⊎ (n ≡ codes "b")

abbrev shelf_rank : Bytes → ℕ
shelf_rank n = length (folded n)

abbrev Closed : Bytes → Type 0
Closed n = All (λ d. OnShelf d × (shelf_rank d < shelf_rank n)) (shelf_deps n)

shelf-Closed : (n : Bytes) → OnShelf n → Closed n
unfolding c_str
shelf-Closed n (inl e) = subst Closed (sym e) ((inr refl, omega arith), tt)
shelf-Closed n (inr e) = subst Closed (sym e) tt

load_module-Added_example :
    Added shelf_rank
      (load_module (drop 8) shelf (codes "x") 3 [] (codes "modules/ab"))
      []
      (codes "ab" ∷ codes "b" ∷ [])
      3
unfolding c_str
load_module-Added_example =
    load_module-Added (drop 8) shelf (codes "x") OnShelf shelf_deps (λ n. false) shelf_rank
      (λ m n h. ap length ((equals_ci_iff m n).0 h)) (λ n a. refl) (λ n a. refl) shelf-Closed 3
      (codes "ab") (inl refl) (omega arith) [] refl

shorter :
    (n t : Bytes)
    → length t ≡ length n - 8
    → All (λ d. length (codes "modules/" ++ d) < length n) (shelf_deps t)
shorter n [] h = tt
shorter n (c ∷ []) h = tt
shorter n (c ∷ d ∷ t) h = (omega arith, tt)

shelf_ranked :
    (n : Bytes) (depends : List Bytes) (init : Bytes → Init)
    → shelf n ≡ library depends init
    → All (λ d. length (codes "modules/" ++ d) < length n) depends
shelf_ranked n depends init e =
    let q : shelf_deps (drop 8 n) ≡ depends = cc in
    subst (λ l. All (λ d. length (codes "modules/" ++ d) < length n) l) q
      (shorter n (drop 8 n) (length-drop 8 n))

load_module-Ends_example :
    (r : List Module × Ended) × (load_module (drop 8) shelf (codes "x") 11 [] (codes "modules/ab")
      ≡ some r)
load_module-Ends_example =
    load_module-Ends (drop 8) shelf (codes "x") length shelf_ranked 11 [] (codes "modules/ab")
      (omega arith)

abbrev letter_rank : Bytes → ℕ
letter_rank n = if bytes_eq n (codes "a") then 1 else 0

delete_module-IsRanked_example :
    ((r : Bool × List Module) × (delete_module
          (λ n. true)
          2
          (second_module ∷ first_module ∷ [])
          (codes "b")
        ≡ returns r))
    ⊎ (delete_module (λ n. true) 2 (second_module ∷ first_module ∷ []) (codes "b")
        ≡ undefined_behaviour)
unfolding bytes_eq Distinct
delete_module-IsRanked_example =
    delete_module-IsRanked letter_rank 1 (λ n. true) 2 (second_module ∷ first_module ∷ [])
      (codes "b") ((refl, tt), (tt, tt)) ((tt, omega arith), (((omega arith, tt), omega arith), tt))
      (omega arith) (omega arith)

-- A library that depends on itself.
abbrev circular : Bytes → Library
circular n = library (codes "a" ∷ []) (λ base. making base true)

load_module-cycle_example :
    load_module (drop 8) circular (codes "x") 5 [] (codes "modules/a") ≡ none
unfolding find_module
load_module-cycle_example =
    load_module-cycle (drop 8) circular (codes "x") 5 [] (λ k. codes "a") (λ k. [])
      (λ k base. making base true) (λ k. refl) (λ k. refl) (λ k. refl) 0
