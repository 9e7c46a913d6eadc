-- ===== src/Modules/Success.antt =====
-- Modules that load with all they depend on.
use libjustasic.Base.{
  ℕ, zero, suc, ◌≡◌, ◌<◌, refl, sym, ap, subst, ◌∙◌, Bool, true, false, List, [], ◌∷◌, ◌++◌, Option,
  none, some, All, All-map, All-append, arith, Bool-cases, Option-cases, inl, inr, if◌then◌else◌,
  append_assoc, append-nil,
}
use libjustasic.Base.Text.{Bytes, codes}
use libjustasic.Ci.{equals_ci}
use libjustasic.Ci.Laws.{equals_ci_iff}
use libjustasic.Modules.{
  Module, find_module, making, Library, library, Ended, returned, mod_err_ok, Loader, is_loaded,
  after_depend, load_depends, start, construct, complete, suffixed, open_library, load_module,
}
use libjustasic.Modules.Names.{names, names-append, names-complete}

-- One of the names is this one, up to case.
abbrev pub has : List Bytes → Bytes → Bool
has [] n = false
has (k ∷ ks) n = if equals_ci k n then true else has ks n

find_module-has : (ms : List Module) (n : Bytes) → is_loaded (find_module ms n) ≡ has (names ms) n
unfolding find_module
find_module-has [] n = refl
find_module-has (m ∷ ms) n = ground (arith, find_module-has ms n)

has-append : (ks ls : List Bytes) (n : Bytes) → has ks n ≡ true → has (ks ++ ls) n ≡ true
has-append [] ls n h = cc
has-append (k ∷ ks) ls n h = ground (arith, has-append ks ls n)

has_last : (ks : List Bytes) (n : Bytes) → has (ks ++ n ∷ []) n ≡ true
has_last [] n = let e = (equals_ci_iff n n).1 refl in rw e refl
has_last (k ∷ ks) n = ground (arith, has_last ks n)

module _ (rank : Bytes → ℕ) where
  abbrev pub Below : ℕ → List Bytes → Type 0
  Below r = All (λ k. rank k < r)

  has-none :
      ((m n : Bytes) → equals_ci m n ≡ true → rank m ≡ rank n)
      → (ks ls : List Bytes) (n : Bytes) → has ks n ≡ false
      → Below (rank n) ls
      → has (ks ++ ls) n ≡ false
  has-none same [] [] n h b = refl
  has-none same [] (l ∷ ls) n h b = elim (Bool-cases (equals_ci l n)) [
    | inl e ↦ let q = same l n e in absurd (omega (arith, q, b.0))
    | inr e ↦ rw e (has-none same [] ls n h b.1)
  ]
  has-none same (k ∷ ks) ls n h b = elim (Bool-cases (equals_ci k n)) [
    | inl e ↦ absurd (let q = rw e at h in cc)
    | inr e ↦ rw e (has-none same ks ls n (rw e at h) b)
  ]

  -- What a load that succeeds has done to the list.
  abbrev pub Added : Option (List Module × Ended) → List Module → List Bytes → ℕ → Type 0
  Added o ms wanted r =
      (ms' : List Module) × (extra : List Bytes) × (o ≡ some (ms', returned mod_err_ok))
      × (names ms' ≡ names ms ++ extra)
      × Below r extra
      × All (λ d. has (names ms') d ≡ true) wanted

  load_depends-Added :
      (load : Loader) (r : ℕ) (depends : List Bytes)
      → All
          (λ d.
            (ms : List Module)
            → has (names ms) d ≡ false
            → Added (load ms (codes "modules/" ++ d)) ms (d ∷ []) r)
          depends
      → (ms : List Module) → Added (load_depends load depends ms) ms depends r
  unfolding load_depends
  load_depends-Added load r [] h ms = (ms, [], refl, sym (append-nil (names ms)), tt, tt)
  load_depends-Added load r (d ∷ depends) h ms = elim (Bool-cases (has (names ms) d)) [
    | inl e ↦
        let (ms', extra, ok_, longer, b, all_) = load_depends-Added load r depends h.1 ms in
        let q = find_module-has ms d ∙ e in
        (
          ms',
          extra,
          rw q ok_,
          longer,
          b,
          (ap (λ l. has l d) longer ∙ has-append (names ms) extra d e, all_),
        )
    | inr e ↦
        let (ms1, extra1, ok1, longer1, b1, (at1, u)) = h.0 ms e in
        let (ms2, extra2, ok2, longer2, b2, all_) = load_depends-Added load r depends h.1 ms1 in
        let q = find_module-has ms d ∙ e in
        (
          ms2,
          extra1 ++ extra2,
          rw q (rw (ok1, after_depend) ok2),
          longer2 ∙ ap (λ l. l ++ extra2) longer1 ∙ append_assoc (names ms) extra1 extra2,
          All-append _ extra1 extra2 b1 b2,
          (ap (λ l. has l d) longer2 ∙ has-append (names ms1) extra2 d at1, all_),
        )
  ]

start-making :
    (mdir filename : Bytes) (depends : List Bytes) (n : Bytes) (permanent : Bool) (ms : List Module)
    → find_module ms n ≡ none
    → (ms' : List Module) × (start mdir filename depends (making n permanent) ms
        ≡ (ms', returned mod_err_ok))
      × (names ms' ≡ names ms ++ n ∷ [])
unfolding start construct
start-making mdir filename depends n permanent ms absent =
    let m : Module = record {
      name = n;
      filename = [];
      filepath = [];
      dependencies = [];
      permanent = permanent;
      is_open = false;
    } in
    (
      complete mdir filename depends (ms ++ m ∷ []),
      rw (absent, construct, start) refl,
      names-complete mdir filename depends (ms ++ m ∷ []) ∙ names-append ms m,
    )

absent_none : (ms : List Module) (n : Bytes) → has (names ms) n ≡ false → find_module ms n ≡ none
absent_none ms n h = elim (Option-cases (find_module ms n)) [
  | inl e ↦ e
  | inr (m, e) ↦ absurd (let q = sym (ap is_loaded e) ∙ find_module-has ms n ∙ h in cc)
]

-- With its dependencies loaded, a library makes its module.
library-Added :
    (rank : Bytes → ℕ) (load : Loader) (random modname : Bytes) (depends : List Bytes) (n : Bytes)
    (permanent : Bool) (ms : List Module)
    → ((k m : Bytes) → equals_ci k m ≡ true → rank k ≡ rank m)
    → has (names ms) n ≡ false
    → Added rank (load_depends load depends ms) ms depends (rank n)
    → Added rank
        (open_library load random n modname (library depends (λ base. making base permanent)) ms)
        ms
        (n ∷ depends)
        (suc (rank n))
unfolding open_library
library-Added rank load random modname depends n permanent ms same absent
      (ms1, extra, ok1, longer, b, all_) =
    let free : has (names ms1) n ≡ false =
      ap (λ l. has l n) longer ∙ has-none rank same (names ms) extra n absent b in
    let (ms2, made, longer2) =
      start-making (codes "runtime/" ++ (suffixed n ++ (codes "." ++ random))) (suffixed modname)
        depends n permanent ms1 (absent_none ms1 n free) in
    (
      ms2,
      extra ++ n ∷ [],
      rw (ok1, open_library) (ap some made),
      longer2 ∙ ap (λ l. l ++ n ∷ []) longer ∙ append_assoc (names ms) extra (n ∷ []),
      All-append _ extra (n ∷ [])
          (All-map (λ k. rank k < rank n) (λ k. rank k < suc (rank n)) (λ k l. omega arith) extra b)
          (omega arith, tt),
      (
        ap (λ l. has l n) longer2 ∙ has_last (names ms1) n,
        All-map (λ d. has (names ms1) d ≡ true) (λ d. has (names ms2) d ≡ true)
            (λ d h. ap (λ l. has l d) longer2 ∙ has-append (names ms1) (n ∷ []) d h) depends all_,
      ),
    )

module _ (basename : Bytes → Bytes) (shared_object : Bytes → Library) (random : Bytes)
    (Available : Bytes → Type 0) (deps : Bytes → List Bytes) (permanent : Bytes → Bool)
    (rank : Bytes → ℕ) where
  -- Where the available names have shared objects that make a module of their base name, depend on
  -- available names of a lower rank only, and names that agree up to case have one rank, `LoadModule`
  -- of an available name that is not loaded returns `MOD_ERR_OK`, with the module and all that it
  -- depends on loaded behind what was loaded before, and nothing of a higher rank.
  pub load_module-Added :
      ((m n : Bytes) → equals_ci m n ≡ true → rank m ≡ rank n)
      → ((n : Bytes) → Available n → basename (codes "modules/" ++ n) ≡ n)
      → ((n : Bytes)
          → Available n
          → shared_object (codes "modules/" ++ n)
            ≡ library (deps n) (λ base. making base (permanent n)))
      → ((n : Bytes) → Available n → All (λ d. Available d × (rank d < rank n)) (deps n))
      → (fuel : ℕ) (n : Bytes) → Available n
      → rank n < fuel
      → (ms : List Module) → has (names ms) n ≡ false
      → Added rank
          (load_module basename shared_object random fuel ms (codes "modules/" ++ n))
          ms
          (n ∷ deps n)
          (suc (rank n))
  unfolding load_module
  load_module-Added same based object closed zero n av h ms absent = absurd (omega arith)
  load_module-Added same based object closed (suc fuel) n av h ms absent =
      let load = load_module basename shared_object random fuel in
      let each =
        All-map (λ d. Available d × (rank d < rank n))
          (λ d.
            (ms : List Module)
            → has (names ms) d ≡ false
            → Added rank (load ms (codes "modules/" ++ d)) ms (d ∷ []) (rank n))
          (λ d (a, l) ms absent.
            lower (rank n) ms d l
              (load_module-Added same based object closed fuel d a (omega arith) ms absent))
          (deps n) (closed n av) in
      let opened =
        library-Added rank load random (codes "modules/" ++ n) (deps n) n (permanent n) ms same
          absent (load_depends-Added rank load (rank n) (deps n) each ms) in
      let step : load_module basename shared_object random (suc fuel) ms (codes "modules/" ++ n)
          ≡ open_library load random n (codes "modules/" ++ n)
              (library (deps n) (λ base. making base (permanent n))) ms =
        rw (based n av, object n av, find_module-has ms n ∙ absent) refl in
      subst (λ o. Added rank o ms (n ∷ deps n) (suc (rank n))) (sym step) opened
    where
      lower :
          {o : Option (List Module × Ended)} (r : ℕ) (ms : List Module) (d : Bytes)
          → rank d < r
          → Added rank o ms (d ∷ deps d) (suc (rank d))
          → Added rank o ms (d ∷ []) r
      lower r ms d l (ms', extra, ok_, longer, b, (at_, all_)) = (
        ms',
        extra,
        ok_,
        longer,
        All-map (λ k. rank k < suc (rank d)) (λ k. rank k < r) (λ k s. omega arith) extra b,
        (at_, tt),
      )
