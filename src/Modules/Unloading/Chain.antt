-- ===== src/Modules/Unloading/Chain.antt =====
-- Modules that depend on modules that depend on others.
use libjustasic.Base.{
  ℕ, suc, ◌≡◌, refl, sym, subst, ap, ◌∙◌, Bool, true, false, List, [], ◌∷◌, Option, none, some,
  length, All, Bool-cases, inl, inr,
}
use libjustasic.Base.Text.{Bytes}
use libjustasic.Base.Dict.{bytes_eq, bytes_eq_iff}
use libjustasic.Modules.{Module}
use libjustasic.Modules.Unloading.{
  Result, returns, undefined_behaviour, ◌>>=◌, find_named, first_of, next_of, remove, Deleter,
  delete_dependent, delete_loop, delete_module,
}
use libjustasic.Modules.Unloading.Leaf.{Distinct, Independent, bytes_eq_refl, delete_module-leaf}

bytes_eq_sym : (s t : Bytes) → bytes_eq s t ≡ false → bytes_eq t s ≡ false
bytes_eq_sym s t h = elim (Bool-cases (bytes_eq t s)) [
  | inl e ↦ let q = (bytes_eq_iff s t).1 (sym ((bytes_eq_iff t s).0 e)) in cc
  | inr e ↦ e
]

loop_round :
    (rounds : ℕ) (del : Deleter) (n it : Bytes) (nx : Option Bytes) (modules modules' : List Module)
    (m : Module) (r : Result (List Module))
    → find_named modules it ≡ some m
    → next_of modules it ≡ nx
    → delete_dependent del n it m.dependencies modules ≡ returns modules'
    → delete_loop rounds del n nx modules' ≡ r
    → delete_loop (suc rounds) del n (some it) modules ≡ r
unfolding delete_loop
loop_round rounds del n it nx modules modules' m r found next deleted rest =
    rw (found, delete_loop, deleted, ◌>>=◌, next) rest

dangling_round :
    (rounds : ℕ) (del : Deleter) (n it : Bytes) (modules : List Module)
    → find_named modules it ≡ none
    → delete_loop (suc rounds) del n (some it) modules ≡ undefined_behaviour
unfolding delete_loop
dangling_round rounds del n it modules gone = rw (gone, delete_loop) refl

loop_end :
    (rounds : ℕ) (del : Deleter) (n : Bytes) (modules : List Module)
    → delete_loop (suc rounds) del n none modules ≡ returns modules
unfolding delete_loop
loop_end rounds del n modules = refl

-- The one dependency is the name, or is not.
module _ (del : Deleter) (n it d : Bytes) (modules : List Module) where
  dependent :
      (done : Bool) (modules' : List Module)
      → bytes_eq d n ≡ true
      → del modules it ≡ returns (done, modules')
      → delete_dependent del n it (d ∷ []) modules ≡ returns modules'
  unfolding delete_dependent
  dependent done modules' h e = rw (h, delete_dependent, e, ◌>>=◌) refl

  independent : bytes_eq d n ≡ false → delete_dependent del n it (d ∷ []) modules ≡ returns modules
  unfolding delete_dependent
  independent h = rw (h, delete_dependent) refl

no_dependency :
    (del : Deleter) (n it : Bytes) (modules : List Module)
    → delete_dependent del n it [] modules ≡ returns modules
unfolding delete_dependent
no_dependency del n it modules = refl

-- What is left of a call when the loop has ended.
abbrev after_loop : (Bytes → Bool) → Bytes → Result (List Module) → Result (Bool × List Module)
after_loop terminates n r = r >>= λ modules'. returns (terminates n, remove modules' n)

open_module :
    (terminates : Bytes → Bool) (fuel : ℕ) (modules : List Module) (n : Bytes) (m : Module)
    → find_named modules n ≡ some m
    → m.is_open ≡ true
    → delete_module terminates (suc fuel) modules n
      ≡ after_loop terminates n (
          delete_loop
            (suc (length modules))
            (delete_module terminates fuel)
            n
            (first_of modules)
            modules)
unfolding delete_module
open_module terminates fuel modules n m found open_ = rw (found, delete_module, open_) refl

needs_none : (m : Module) → m.dependencies ≡ [] → (n : Bytes) → Independent n m
needs_none m e n = subst (All (λ d. bytes_eq d n ≡ false)) (sym e) tt

needs_one :
    (m : Module) (d : Bytes)
    → m.dependencies ≡ d ∷ []
    → (n : Bytes) → bytes_eq d n ≡ false
    → Independent n m
needs_one m d e n h = subst (All (λ k. bytes_eq k n ≡ false)) (sym e) (h, tt)

-- Three modules that were loaded in the order of their dependencies.
module _ (a b c : Module) (ab : bytes_eq a.name b.name ≡ false)
    (ac : bytes_eq a.name c.name ≡ false) (bc : bytes_eq b.name c.name ≡ false) where
  abbrev chain : List Module
  chain = a ∷ b ∷ c ∷ []

  -- The nodes and what is behind them.
  nodes :
      (find_named chain a.name ≡ some a)
      × (find_named chain b.name ≡ some b)
      × (find_named chain c.name ≡ some c)
      × (next_of chain a.name ≡ some b.name)
      × (next_of chain b.name ≡ some c.name)
      × (next_of chain c.name ≡ none)
  unfolding find_named next_of
  nodes =
      let ra = bytes_eq_refl a.name in
      let rb = bytes_eq_refl b.name in
      let rc = bytes_eq_refl c.name in
      (
        rw ra refl,
        rw (ab, rb) refl,
        rw (ac, bc, rc) refl,
        rw ra refl,
        rw (ab, rb) refl,
        rw (ac, bc, rc) refl,
      )

  removals :
      (remove chain c.name ≡ a ∷ b ∷ [])
      × (remove (a ∷ b ∷ []) b.name ≡ a ∷ [])
      × (find_named (a ∷ []) c.name ≡ none)
  unfolding find_named remove
  removals =
      let rb = bytes_eq_refl b.name in
      let rc = bytes_eq_refl c.name in (rw (ac, bc, rc) refl, rw (ab, rb) refl, rw ac refl)

  module _ (terminates : Bytes → Bool) (fuel : ℕ) (a_needs : a.dependencies ≡ [])
      (b_needs : b.dependencies ≡ a.name ∷ []) (c_needs : c.dependencies ≡ b.name ∷ [])
      (a_open : a.is_open ≡ true) (b_open : b.is_open ≡ true) (c_open : c.is_open ≡ true) where
    delete_last :
        delete_module terminates (suc fuel) chain c.name ≡ returns (terminates c.name, a ∷ b ∷ [])
    delete_last =
        let leaf =
          delete_module-leaf terminates fuel chain c.name c
            (unfold Distinct in ((ab, (ac, tt)), ((bc, tt), (tt, tt))))
            (
              needs_none a a_needs c.name,
              (needs_one b a.name b_needs c.name ac, (needs_one c b.name c_needs c.name bc, tt)),
            )
            nodes.2 c_open in
        leaf ∙ ap (λ l. returns (terminates c.name, l)) removals.0

    no_dependency_of :
        (del : Deleter) (n it : Bytes) (m : Module)
        → m.dependencies ≡ []
        → delete_dependent del n it m.dependencies chain ≡ returns chain
    no_dependency_of del n it m e =
        ap (λ l. delete_dependent del n it l chain) e ∙ no_dependency del n it chain

    delete_middle :
        delete_module terminates (suc (suc fuel)) chain b.name ≡ returns (terminates b.name, a ∷ [])
    delete_middle =
        let del = delete_module terminates (suc fuel) in
        let at_c : delete_dependent del b.name c.name c.dependencies chain ≡ returns (a ∷ b ∷ []) =
          ap (λ l. delete_dependent del b.name c.name l chain) c_needs
          ∙ dependent del b.name c.name b.name chain (terminates c.name) (a ∷ b ∷ [])
              (bytes_eq_refl b.name) delete_last in
        let at_b : delete_dependent del b.name b.name b.dependencies chain ≡ returns chain =
          ap (λ l. delete_dependent del b.name b.name l chain) b_needs
          ∙ independent del b.name b.name a.name chain ab in
        let loop : delete_loop 4 del b.name (some a.name) chain ≡ returns (a ∷ b ∷ []) =
          loop_round 3 del b.name a.name (some b.name) chain chain a (returns (a ∷ b ∷ [])) nodes.0
            nodes.3 (no_dependency_of del b.name a.name a a_needs)
            (loop_round 2 del b.name b.name (some c.name) chain chain b (returns (a ∷ b ∷ []))
              nodes.1 nodes.4 at_b
              (loop_round 1 del b.name c.name none chain (a ∷ b ∷ []) c (returns (a ∷ b ∷ []))
                nodes.2 nodes.5 at_c (loop_end 0 del b.name (a ∷ b ∷ [])))) in
        open_module terminates (suc fuel) chain b.name b nodes.1 b_open
        ∙ ap (after_loop terminates b.name) loop
        ∙ ap (λ l. returns (terminates b.name, l)) removals.1

    -- Deleting the first of three modules, of which the second depends on it and the third on the second,
    -- in the order in which they were loaded, goes on from the deleted third one: the behaviour is
    -- undefined.
    pub delete_module-chain :
        delete_module terminates (suc (suc (suc fuel))) chain a.name ≡ undefined_behaviour
    delete_module-chain =
        let del = delete_module terminates (suc (suc fuel)) in
        let at_b : delete_dependent del a.name b.name b.dependencies chain ≡ returns (a ∷ []) =
          ap (λ l. delete_dependent del a.name b.name l chain) b_needs
          ∙ dependent del a.name b.name a.name chain (terminates b.name) (a ∷ [])
              (bytes_eq_refl a.name) delete_middle in
        let loop : delete_loop 4 del a.name (some a.name) chain ≡ undefined_behaviour =
          loop_round 3 del a.name a.name (some b.name) chain chain a undefined_behaviour nodes.0
            nodes.3 (no_dependency_of del a.name a.name a a_needs)
            (loop_round 2 del a.name b.name (some c.name) chain (a ∷ []) b undefined_behaviour
              nodes.1 nodes.4 at_b (dangling_round 1 del a.name c.name (a ∷ []) removals.2)) in
        open_module terminates (suc (suc fuel)) chain a.name a nodes.0 a_open
        ∙ ap (after_loop terminates a.name) loop
