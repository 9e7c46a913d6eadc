-- ===== src/Modules/Names.antt =====
-- The names of the loaded modules.
use libjustasic.Base.{
  ℕ, zero, suc, ◌≡◌, refl, Bool, false, List, [], ◌∷◌, ◌++◌, Option, none, some, All, All-append,
  ap, sym, ◌∙◌, append_assoc, append-nil, Option-cases, Bool-cases, inl, inr, subst,
}
use libjustasic.Base.Text.{Bytes, codes}
use libjustasic.Ci.{equals_ci}
use libjustasic.Modules.{
  Module, mod_err_exists, find_module, construct, Init, missing, throwing, making, Library,
  unreadable, broken, library, Ended, returned, complete, Loader, load_depends, start, is_loaded,
  is_ok, depend_ended, after_depend, suffixed, open_library, load_module,
}

abbrev pub names : List Module → List Bytes
names [] = []
names (m ∷ modules) = m.name ∷ names modules

-- No two names agree up to case.
unfoldable pub Unique : List Bytes → Type 0
Unique [] = Unit
Unique (n ∷ ns) = All (λ k. equals_ci n k ≡ false) ns × Unique ns

find_module-none :
    (modules : List Module) (n : Bytes)
    → find_module modules n ≡ none
    → All (λ k. equals_ci k n ≡ false) (names modules)
unfolding find_module
find_module-none [] n h = tt
find_module-none (m ∷ modules) n h = elim (Bool-cases (equals_ci m.name n)) [
  | inl e ↦ absurd (let q = rw e at h in cc)
  | inr e ↦ (e, find_module-none modules n (rw e at h))
]

Unique-append :
    (ns : List Bytes) (n : Bytes)
    → Unique ns
    → All (λ k. equals_ci k n ≡ false) ns
    → Unique (ns ++ n ∷ [])
unfolding Unique
Unique-append [] n u h = (tt, tt)
Unique-append (k ∷ ns) n u h = (All-append _ ns (n ∷ []) u.0 (h.0, tt), Unique-append ns n u.1 h.1)

pub names-append : (ms : List Module) (m : Module) → names (ms ++ m ∷ []) ≡ names ms ++ m.name ∷ []
names-append [] m = refl
names-append (x ∷ ms) m = ap (◌∷◌ x.name) (names-append ms m)

pub names-complete :
    (filepath filename : Bytes) (depends : List Bytes) (ms : List Module)
    → names (complete filepath filename depends ms) ≡ names ms
unfolding complete
names-complete filepath filename depends [] = refl
names-complete filepath filename depends (m ∷ []) = refl
names-complete filepath filename depends (m ∷ m' ∷ ms) =
    ap (◌∷◌ m.name) (names-complete filepath filename depends (m' ∷ ms))

-- The modules stay in their order, new ones come behind them, and unique names stay unique.
pub record Grows (ms ms' : List Module) : Type 0 where
  pub extra : List Bytes
  pub longer : names ms' ≡ names ms ++ extra
  pub unique : Unique (names ms) → Unique (names ms')

pub Grows-refl : (ms : List Module) → Grows ms ms
Grows-refl ms = record { extra = []; longer = sym (append-nil (names ms)); unique = λ u. u }

pub Grows-trans : (a b c : List Module) → Grows a b → Grows b c → Grows a c
Grows-trans a b c g h = record {
  extra = g.extra ++ h.extra;
  longer = h.longer ∙ ap (λ t. t ++ h.extra) g.longer ∙ append_assoc (names a) g.extra h.extra;
  unique = λ u. h.unique (g.unique u);
}

construct-Grows :
    (n : Bytes) (permanent : Bool) (ms ms' : List Module)
    → construct n permanent ms ≡ some ms'
    → Grows ms ms'
unfolding construct
construct-Grows n permanent ms ms' h = elim (Option-cases (find_module ms n)) [
  | inl e ↦
      let m : Module = record {
        name = n;
        filename = [];
        filepath = [];
        dependencies = [];
        permanent = permanent;
        is_open = false;
      } in
      let q : some (ms ++ m ∷ []) ≡ some ms' = rw (e, construct) at h in
      let q' : ms ++ m ∷ [] ≡ ms' = cc in
      subst (Grows ms) q' (record {
        extra = n ∷ [];
        longer = names-append ms m;
        unique = λ u.
            subst Unique (sym (names-append ms m))
              (Unique-append (names ms) n u (find_module-none ms n e));
      })
  | inr (m, e) ↦ absurd (let q = rw (e, construct) at h in cc)
]

complete-Grows :
    (filepath filename : Bytes) (depends : List Bytes) (a b : List Module)
    → Grows a b
    → Grows a (complete filepath filename depends b)
complete-Grows filepath filename depends a b g =
    let e = names-complete filepath filename depends b in
    record {
      extra = g.extra;
      longer = e ∙ g.longer;
      unique = λ u. subst Unique (sym e) (g.unique u);
    }

start-Grows :
    (mdir filename : Bytes) (depends : List Bytes) (init : Init) (ms : List Module)
    → Grows ms (start mdir filename depends init ms).0
unfolding start
start-Grows mdir filename depends missing ms = Grows-refl ms
start-Grows mdir filename depends throwing ms = Grows-refl ms
start-Grows mdir filename depends (making n permanent) ms =
    elim (Option-cases (construct n permanent ms)) [
      | inl e ↦ rw (e, start) (Grows-refl ms)
      | inr (ms', e) ↦
          rw (e, start)
            (complete-Grows mdir filename depends ms ms' (construct-Grows n permanent ms ms' e))
    ]

-- A loader that only adds modules.
abbrev pub OnlyAdds : Loader → Type 0
OnlyAdds load =
    (ms : List Module) (n : Bytes) (ms' : List Module) (e : Ended)
    → load ms n ≡ some (ms', e)
    → Grows ms ms'

after_depend-Grows :
    (ms ms' : List Module) (e : Ended) (r : Option (List Module × Ended))
    (next : List Module → Option (List Module × Ended))
    → ((m1 : List Module) (e1 : Ended) → r ≡ some (m1, e1) → Grows ms m1)
    → ((m1 : List Module) → next m1 ≡ some (ms', e) → Grows m1 ms')
    → after_depend r next ≡ some (ms', e)
    → Grows ms ms'
after_depend-Grows ms ms' e none next g k h = absurd (cc)
after_depend-Grows ms ms' e (some (m1, e1)) next g k h = elim (Bool-cases (is_ok e1)) [
  | inl q ↦ Grows-trans ms m1 ms' (g m1 e1 refl) (k m1 (rw q at h))
  | inr q ↦
      let h' : some (m1, depend_ended e1) ≡ some (ms', e) = rw q at h in
      let p : m1 ≡ ms' = cc in subst (Grows ms) p (g m1 e1 refl)
]

load_depends-Grows :
    (load : Loader)
    → OnlyAdds load
    → (depends : List Bytes) (ms ms' : List Module) (e : Ended)
    → load_depends load depends ms ≡ some (ms', e)
    → Grows ms ms'
unfolding load_depends
load_depends-Grows load adds [] ms ms' e h =
    let q : ms ≡ ms' = cc in subst (Grows ms) q (Grows-refl ms)
load_depends-Grows load adds (d ∷ depends) ms ms' e h =
    elim (Bool-cases (is_loaded (find_module ms d))) [
      | inl q ↦ load_depends-Grows load adds depends ms ms' e (rw q at h)
      | inr q ↦
          after_depend-Grows ms ms' e (load ms (codes "modules/" ++ d))
            (λ m. load_depends load depends m) (λ m1 e1 l. adds ms (codes "modules/" ++ d) m1 e1 l)
            (λ m1 l. load_depends-Grows load adds depends m1 ms' e l) (rw q at h)
    ]

open_library-Grows :
    (load : Loader)
    → OnlyAdds load
    → (random base modname : Bytes) (l : Library) (ms ms' : List Module) (e : Ended)
    → open_library load random base modname l ms ≡ some (ms', e)
    → Grows ms ms'
unfolding open_library
open_library-Grows load adds random base modname unreadable ms ms' e h =
    let q : ms ≡ ms' = cc in subst (Grows ms) q (Grows-refl ms)
open_library-Grows load adds random base modname broken ms ms' e h =
    let q : ms ≡ ms' = cc in subst (Grows ms) q (Grows-refl ms)
open_library-Grows load adds random base modname (library depends init) ms ms' e h =
    elim (Option-cases (load_depends load depends ms)) [
      | inl n ↦ absurd (let q = rw (n, open_library) at h in cc)
      | inr ((m1, e1), n) ↦
          let g = load_depends-Grows load adds depends ms m1 e1 n in
          elim (Bool-cases (is_ok e1)) [
            | inl q ↦
                let m2 =
                  start (codes "runtime/" ++ (suffixed base ++ (codes "." ++ random)))
                    (suffixed modname) depends (init base) m1 in
                let h' : some m2 ≡ some (ms', e) = rw (n, open_library, q) at h in
                let p : m2 ≡ (ms', e) = cc in
                subst (λ (x : List Module × Ended). Grows ms x.0) p
                  (Grows-trans ms m1 m2.0 g (start-Grows _ _ depends (init base) m1))
            | inr q ↦
                let h' : some (m1, e1) ≡ some (ms', e) = rw (n, open_library, q) at h in
                let p : m1 ≡ ms' = cc in subst (Grows ms) p g
          ]
    ]

-- Whatever a load ends with, it removes no module and changes no name, new modules come behind the
-- old ones, those of dependencies included, and names that are unique up to case stay so.
pub load_module-Grows :
    (basename : Bytes → Bytes) (shared_object : Bytes → Library) (random : Bytes) (fuel : ℕ)
    (ms : List Module) (modname : Bytes) (ms' : List Module) (e : Ended)
    → load_module basename shared_object random fuel ms modname ≡ some (ms', e)
    → Grows ms ms'
unfolding load_module
load_module-Grows basename shared_object random zero ms modname ms' e h = absurd (cc)
load_module-Grows basename shared_object random (suc fuel) ms [] ms' e h =
    let q : ms ≡ ms' = cc in subst (Grows ms) q (Grows-refl ms)
load_module-Grows basename shared_object random (suc fuel) ms (c ∷ modname) ms' e h =
    elim (Bool-cases (is_loaded (find_module ms (basename (c ∷ modname))))) [
      | inl q ↦
          let h' : some (ms, returned mod_err_exists) ≡ some (ms', e) = rw q at h in
          let p : ms ≡ ms' = cc in subst (Grows ms) p (Grows-refl ms)
      | inr q ↦
          open_library-Grows (load_module basename shared_object random fuel)
            (λ ms n ms' e l. load_module-Grows basename shared_object random fuel ms n ms' e l)
            random (basename (c ∷ modname)) (c ∷ modname) (shared_object (c ∷ modname)) ms ms' e
            (rw q at h)
    ]
