-- ===== src/Modules/Unloading/Kept.antt =====
-- What is left of the list of modules when one is deleted.
use libjustasic.Base.{
  ℕ, zero, suc, ◌≡◌, refl, sym, subst, ap, ◌∙◌, Bool, true, false, List, [], ◌∷◌, Option, none,
  some, length, All, All-map, Bool-cases, Option-cases, inl, inr, ◌⊎◌,
}
use libjustasic.Base.Text.{Bytes}
use libjustasic.Base.Dict.{bytes_eq, bytes_eq_iff}
use libjustasic.Modules.{Module}
use libjustasic.Modules.Unloading.{
  Result, returns, undefined_behaviour, out_of_fuel, ◌>>=◌, find_named, first_of, next_of, remove,
  Deleter, delete_dependent, delete_loop, delete_module,
}
use libjustasic.Modules.Unloading.Leaf.{Distinct}

-- The first list is the second without some of its modules, in the same order.
pub data Kept : List Module → List Module → Type 0 where
  all_kept : (modules : List Module) → Kept modules modules
  keep :
      {kept modules : List Module} (m : Module) → Kept kept modules → Kept (m ∷ kept) (m ∷ modules)
  leave : {kept modules : List Module} (m : Module) → Kept kept modules → Kept kept (m ∷ modules)

Kept-trans : {xs ys zs : List Module} → Kept xs ys → Kept ys zs → Kept xs zs
Kept-trans h (all_kept ms) = h
Kept-trans h (leave m k) = leave m (Kept-trans h k)
Kept-trans (all_kept ms) (keep m k) = keep m k
Kept-trans (keep m' h) (keep m k) = keep m (Kept-trans h k)
Kept-trans (leave m' h) (keep m k) = leave m (Kept-trans h k)

remove-Kept : (modules : List Module) (n : Bytes) → Kept (remove modules n) modules
unfolding remove
remove-Kept [] n = all_kept []
remove-Kept (m ∷ modules) n = elim (Bool-cases (bytes_eq m.name n)) [
  | inl e ↦ rw e (leave m (all_kept modules))
  | inr e ↦ rw e (keep m (remove-Kept modules n))
]

pub Kept-All : (P : Module → Type 0) {xs ys : List Module} → Kept xs ys → All P ys → All P xs
Kept-All P (all_kept ms) h = h
Kept-All P (keep m k) h = (h.0, Kept-All P k h.1)
Kept-All P (leave m k) h = Kept-All P k h.1

pub Distinct-Kept : {xs ys : List Module} → Kept xs ys → Distinct ys → Distinct xs
unfolding Distinct
Distinct-Kept (all_kept ms) h = h
Distinct-Kept (keep m k) h =
    (Kept-All (λ x. bytes_eq m.name x.name ≡ false) k h.0, Distinct-Kept k h.1)
Distinct-Kept (leave m k) h = Distinct-Kept k h.1

find_named-none :
    (modules : List Module) (n : Bytes)
    → All (λ m. bytes_eq m.name n ≡ false) modules
    → find_named modules n ≡ none
unfolding find_named
find_named-none [] n h = refl
find_named-none (m ∷ modules) n h = rw h.0 (find_named-none modules n h.1)

swapped : (s t : Bytes) → bytes_eq s t ≡ false → bytes_eq t s ≡ false
swapped s t d = elim (Bool-cases (bytes_eq t s)) [
  | inl e ↦ let back = (bytes_eq_iff s t).1 (sym ((bytes_eq_iff t s).0 e)) in absurd (cc)
  | inr e ↦ e
]

find_named-remove :
    (modules : List Module) (n : Bytes) → Distinct modules → find_named (remove modules n) n ≡ none
unfolding remove find_named Distinct
find_named-remove [] n h = refl
find_named-remove (m ∷ modules) n h = elim (Bool-cases (bytes_eq m.name n)) [
  | inl e ↦ rw e (
      find_named-none modules n (
        subst (λ k. All (λ x. bytes_eq x.name k ≡ false) modules) ((bytes_eq_iff m.name n).0 e)
          (All-map (λ x. bytes_eq m.name x.name ≡ false) (λ x. bytes_eq x.name m.name ≡ false)
            (λ x d. swapped m.name x.name d) modules h.0)))
  | inr e ↦ rw e (rw e (find_named-remove modules n h.1))
]

returns_inj : {A : Type 0} {a b : A} → returns a ≡ returns b → a ≡ b
returns_inj h = cc

-- What is bound returned.
bind-returns :
    {A B : Type 0} (r : Result A) (f : A → Result B) (b : B)
    → r >>= f ≡ returns b
    → (a : A) × (r ≡ returns a) × (f a ≡ returns b)
bind-returns (returns a) f b h = (a, refl, h)
bind-returns undefined_behaviour f b h = cc
bind-returns out_of_fuel f b h = cc

-- A deletion that returns has only taken modules out.
abbrev pub Takes : Deleter → Type 0
Takes del =
    (ms ms' : List Module) (n : Bytes) (done : Bool) → del ms n ≡ returns (done, ms') → Kept ms' ms

pub delete_dependent-Kept :
    (del : Deleter) (n mod_ : Bytes) (depends : List Bytes) (ms ms' : List Module)
    → Takes del
    → delete_dependent del n mod_ depends ms ≡ returns ms'
    → Kept ms' ms
unfolding delete_dependent
delete_dependent-Kept del n mod_ [] ms ms' takes h =
    subst (λ l. Kept l ms) (returns_inj h) (all_kept ms)
delete_dependent-Kept del n mod_ (d ∷ depends) ms ms' takes h = elim (Bool-cases (bytes_eq d n)) [
  | inl e ↦
      let ((done, ms1), r, rest) =
        bind-returns (del ms mod_) _ ms' (let q = rw (e, delete_dependent) at h in q) in
      Kept-trans (delete_dependent-Kept del n mod_ depends ms1 ms' takes rest)
        (takes ms ms1 mod_ done r)
  | inr e ↦
      delete_dependent-Kept del n mod_ depends ms ms' takes
        (let q = rw (e, delete_dependent) at h in q)
]

delete_loop-Kept :
    (rounds : ℕ) (del : Deleter) (n : Bytes) (it : Option Bytes) (ms ms' : List Module)
    → Takes del
    → delete_loop rounds del n it ms ≡ returns ms'
    → Kept ms' ms
unfolding delete_loop
delete_loop-Kept zero del n it ms ms' takes h = cc
delete_loop-Kept (suc rounds) del n none ms ms' takes h =
    subst (λ l. Kept l ms) (returns_inj h) (all_kept ms)
delete_loop-Kept (suc rounds) del n (some it) ms ms' takes h =
    elim (Option-cases (find_named ms it)) [
      | inl e ↦ let q = rw (e, delete_loop) at h in cc
      | inr (mod_, e) ↦
          let (ms1, r, rest) =
            bind-returns (delete_dependent del n it mod_.dependencies ms) _ ms'
              (let q = rw (e, delete_loop) at h in q) in
          Kept-trans (delete_loop-Kept rounds del n (next_of ms it) ms1 ms' takes rest)
            (delete_dependent-Kept del n it mod_.dependencies ms ms1 takes r)
    ]

-- How a deletion ends: with nothing changed, or with the module taken out of what the deletions of
-- its dependents have left.
abbrev pub Outcome : Bytes → List Module → Bool → List Module → Type 0
Outcome n ms done ms' =
    ((ms' ≡ ms) × (done ≡ false)) ⊎ ((ms1 : List Module) × Kept ms1 ms × (ms' ≡ remove ms1 n))

pub outcome-Kept :
    (n : Bytes) (ms ms' : List Module) (done : Bool) → Outcome n ms done ms' → Kept ms' ms
outcome-Kept n ms ms' done (inl (e, d)) = subst (λ l. Kept l ms) (sym e) (all_kept ms)
outcome-Kept n ms ms' done (inr (ms1, k, e)) =
    subst (λ l. Kept l ms) (sym e) (Kept-trans (remove-Kept ms1 n) k)

module _ (terminates : Bytes → Bool) where
  pub delete_module-Outcome :
      (fuel : ℕ) (ms ms' : List Module) (n : Bytes) (done : Bool)
      → delete_module terminates fuel ms n ≡ returns (done, ms')
      → Outcome n ms done ms'
  unfolding delete_module
  delete_module-Outcome zero ms ms' n done h = cc
  delete_module-Outcome (suc fuel) ms ms' n done h = elim (Option-cases (find_named ms n)) [
    | inl e ↦ let q = rw (e, delete_module) at h in cc
    | inr (m, e) ↦ elim (Bool-cases m.is_open) [
      | inl o ↦
          let del = delete_module terminates fuel in
          let loop = delete_loop (suc (length ms)) del n (first_of ms) ms in
          let (ms1, r, rest) = bind-returns loop _ (done, ms') (rw (e, o, delete_module) at h) in
          let takes : Takes del =
            λ a b n' d q. outcome-Kept n' a b d (delete_module-Outcome fuel a b n' d q) in
          inr (
            ms1,
            delete_loop-Kept (suc (length ms)) del n (first_of ms) ms ms1 takes r,
            ap (λ p. p.1) (sym (returns_inj rest)),
          )
      | inr o ↦
          let q = sym (returns_inj (rw (e, o, delete_module) at h)) in
          inl (ap (λ p. p.1) q, ap (λ p. p.0) q)
    ]
  ]

  -- When `DeleteModule` returns it has only taken modules out of the list and left the others in
  -- their order; when it answers true, the module is no longer in the list. The names differ.
  pub delete_module-Kept :
      (fuel : ℕ) (ms ms' : List Module) (n : Bytes) (done : Bool)
      → Distinct ms
      → delete_module terminates fuel ms n ≡ returns (done, ms')
      → Kept ms' ms × (done ≡ true → find_named ms' n ≡ none)
  delete_module-Kept fuel ms ms' n done d h =
      let o = delete_module-Outcome fuel ms ms' n done h in (outcome-Kept n ms ms' done o, gone o)
    where
      gone : Outcome n ms done ms' → done ≡ true → find_named ms' n ≡ none
      gone (inl (e, no_)) yes_ = absurd (cc)
      gone (inr (ms1, k, e)) yes_ =
          ap (λ l. find_named l n) e ∙ find_named-remove ms1 n (Distinct-Kept k d)
