-- ===== src/Placeholder/Laws.antt =====
-- What `ProcessString`, the filters and `_yesno` do.
use Prim.Native.Nat.add
use mathlib.Core.Path.{subst₂}
use libjustasic.Flux.Split.{split_two}
use libjustasic.Base.{
  ◌⊎◌, inl, inr, Bool-cases, All-append_left, length-take, ℕ, suc, ◌+◌, ◌≤◌, ◌≡◌, refl, ap, ◌∙◌,
  false, true, ◌%◌, ◌^◌, ◌<◌, ◌||◌, [], ◌∷◌, ◌++◌, Option, none, some, ltb, if◌then◌else◌, length,
  take, All, All-append, All-take, All-append_right, arith, length-append, drop-append_add,
  take-append_add, append_assoc,
}
use libjustasic.Base.Text.{Bytes, npos, Lacks}
use libjustasic.Base.Dict.{Dict, lookup-insert, bytes_eq, Keys, lookup-none}
use libjustasic.Flux.{ok, out_of_range, substr, find}
use libjustasic.Flux.Replace.{substr_at}
use libjustasic.Flux.Byte.{find_byte, find_byte-none}
use libjustasic.Placeholder.{
  Filters, Filter, at, empty, add_filter, booltostr, process_string, yesno, replacement, replaced,
  process_loop, process_from, process_string, as_int,
}

-- A text with one placeholder.
abbrev pub placed : Bytes → Bytes → Bytes → Bytes
placed p name q = p ++ b'{' ∷ (name ++ b'}' ∷ q)

-- Positions below `2 ^ 31` are kept.
as_int-small : (n : ℕ) → n < 2 ^ 31 → as_int (some n) ≡ some n
unfolding as_int
as_int-small n h =
    let low : n % 2 ^ 32 ≡ n = ground arith in
    let small : ltb n (2 ^ 31) ≡ true = ground arith in rw low (rw small refl)

as_int-none : as_int none ≡ none
unfolding as_int
as_int-none = refl

module _ (p name q : Bytes) where
  abbrev text : Bytes
  text = placed p name q

  length-text : length text ≡ length p + suc (length name + suc (length q))
  length-text =
      omega (arith, length-append p (b'{' ∷ (name ++ b'}' ∷ q)), length-append name (b'}' ∷ q))

  first_open :
      length text < 2 ^ 31 → Lacks b'{' p → as_int (find text (b'{' ∷ []) 0) ≡ some (length p)
  first_open small h =
      ap as_int (find_byte b'{' [] p _ h ∙ ap some (add.zero (length p)))
      ∙ as_int-small (length p) (omega (arith, small, length-text))

  first_close :
      length text < 2 ^ 31
      → Lacks b'}' name
      → as_int (find text (b'}' ∷ []) (length p)) ≡ some (length p + suc (length name))
  first_close small h =
      ap as_int (find_byte b'}' p (b'{' ∷ name) q ((λ e. omega arith), h))
      ∙ as_int-small (length p + suc (length name)) (omega (arith, small, length-text))

  nothing_open : Lacks b'{' (name ++ b'}' ∷ q) → find text (b'{' ∷ []) (length p + 1) ≡ none
  nothing_open h =
      subst₂ (λ t n. find t (b'{' ∷ []) n ≡ none) (append_assoc p (b'{' ∷ []) (name ++ b'}' ∷ q))
        (length-append p (b'{' ∷ [])) (find_byte-none b'{' (p ++ b'{' ∷ []) (name ++ b'}' ∷ q) h)

  next_open : Lacks b'{' (name ++ b'}' ∷ q) → as_int (find text (b'{' ∷ []) (length p + 1)) ≡ none
  next_open h = ap as_int (nothing_open h) ∙ as_int-none

  the_variable :
      Lacks 0 text
      → substr text (length p + 1) (length p + suc (length name))
        ≡ ok (name ++ b'}' ∷ take (length p) q)
  the_variable h =
      substr_at text (length p + 1) (length p + suc (length name)) h (omega (arith, length-text))
      ∙ ap (λ t. ok (take (length p + suc (length name)) t))
          (drop-append_add p (b'{' ∷ (name ++ b'}' ∷ q)) 1)
      ∙ ap (λ n. ok (take n (name ++ b'}' ∷ q))) (omega arith)
      ∙ ap ok (take-append_add name (b'}' ∷ q) (suc (length p)))

  inside :
      (ltb (length text) (length p + 1) || ltb (length text) (length p + suc (length name) + 1))
      ≡ false
  inside = ground (arith, length-text)

module _ (filters : Filters) (variables : Dict Bytes) (names : Keys (Lacks b'}') variables) where
  -- A name that holds a closing brace and no bar is replaced by nothing.
  replacement-brace :
      (a q : Bytes)
      → Lacks b'|' (a ++ b'}' ∷ q)
      → replacement filters variables (a ++ b'}' ∷ q) ≡ ok []
  unfolding replacement
  replacement-brace a q h = rw (
    find_byte-none b'|' [] (a ++ b'}' ∷ q) h,
    lookup-none (Lacks b'}') (a ++ b'}' ∷ q) variables names
        (λ l. (All-append_right _ a (b'}' ∷ q) l).0 refl),
    replacement,
  )

  module _ (p name q : Bytes) where
    abbrev this : Bytes
    this = placed p name q

    last_round :
        (fuel : ℕ)
        → Lacks b'{' (name ++ b'}' ∷ q)
        → (close : Option ℕ)
        → process_loop
            (suc fuel)
            filters
            variables
            this
            (as_int (find this (b'{' ∷ []) (length p + 1)))
            close
          ≡ ok this
    unfolding process_loop
    last_round fuel hn close = rw (next_open p name q hn, process_loop) refl

    -- With names that hold no `}`, a text with one placeholder and no bar is returned as it was:
    -- the name that is looked up runs on past the `}`.
    process_text :
        (fuel : ℕ)
        → length this < 2 ^ 31
        → Lacks 0 this
        → Lacks b'{' p
        → Lacks b'{' (name ++ b'}' ∷ q)
        → Lacks b'}' name
        → Lacks b'|' (name ++ b'}' ∷ q)
        → process_from (suc (suc fuel)) filters variables this ≡ ok this
    unfolding process_from process_loop replaced
    process_text fuel small h hp hn hc hb =
        let no_bar =
          All-append _ name _ (All-append_left _ name _ hb) (
            (λ e. omega arith),
            All-take _ (length p) q (All-append_right _ name (b'}' ∷ q) hb).1,
          ) in
        rw (first_open p name q small hp, process_from)
          (rw (first_close p name q small hc, process_loop)
            (rw (inside p name q) (
              rw (the_variable p name q h, replacement-brace name (take (length p) q) no_bar)
                (last_round fuel hn _))))

-- A placeholder for a variable is never replaced: when no name holds a `}`, a text with one
-- placeholder and without a bar behind its `{` comes back as it was, whatever the variables hold. The
-- text holds no NUL and is shorter than `2 ^ 31` bytes, so that its positions are kept in an `int`.
pub process_string-plain :
    (filters : Filters) (variables : Dict Bytes) (p name q : Bytes) (fuel : ℕ)
    → Keys (Lacks b'}') variables
    → length (placed p name q) < 2 ^ 31
    → Lacks 0 (placed p name q)
    → Lacks b'{' p
    → Lacks b'{' (name ++ b'}' ∷ q)
    → Lacks b'}' name
    → Lacks b'|' (name ++ b'}' ∷ q)
    → process_string (suc (suc fuel)) filters (placed p name q) variables ≡ ok (placed p name q)
unfolding process_string
process_string-plain filters [] [] name q fuel names small h hp hn hc hb = refl
process_string-plain filters [] (c ∷ p) name q fuel names small h hp hn hc hb = refl
process_string-plain filters (v ∷ variables) [] name q fuel names small h hp hn hc hb =
    process_text filters (v ∷ variables) names [] name q fuel small h hp hn hc hb
process_string-plain filters (v ∷ variables) (c ∷ p) name q fuel names small h hp hn hc hb =
    process_text filters (v ∷ variables) names (c ∷ p) name q fuel small h hp hn hc hb

-- Without variables or without a `{` the text comes back as it was.
process_string-untouched :
    (fuel : ℕ) (filters : Filters) (str : Bytes) (variables : Dict Bytes)
    → (variables ≡ []) ⊎ Lacks b'{' str
    → process_string fuel filters str variables ≡ ok str
unfolding process_string process_from
process_string-untouched fuel filters [] variables h = refl
process_string-untouched fuel filters (c ∷ str) [] h = refl
process_string-untouched fuel filters (c ∷ str) (v ∷ variables) (inl e) = absurd (ground arith)
process_string-untouched fuel filters (c ∷ str) (v ∷ variables) (inr h) =
    rw (find_byte-none b'{' [] (c ∷ str) h, as_int-none, process_from) refl

choice_ne-empty : (a b : Bytes) → empty (a ++ b',' ∷ b) ≡ false
choice_ne-empty [] b = refl
choice_ne-empty (c ∷ a) b = refl

-- With a choice `a,b` the yes-or-no filter takes `a` for a text that means yes and else `b`.
yesno-choice :
    (lvalue a b : Bytes)
    → length a + length b + 2 ≤ npos
    → Lacks b',' a
    → Lacks b',' b
    → yesno lvalue (a ++ b',' ∷ b) ≡ ok (if booltostr lvalue then a else b)
unfolding yesno
yesno-choice lvalue a b small ha hb =
    rw (choice_ne-empty a b, yesno)
      (rw (find_byte b',' [] a b ha, split_two b',' a b small ha hb)
        (elim (Bool-cases (booltostr lvalue)) [ inl e ↦ rw e refl | inr e ↦ rw e refl ]))

-- After `AddFilter` the name calls the new filter, and every other name what it called before.
at-add_filter :
    (filters : Filters) (name j : Bytes) (filter : Filter)
    → at (add_filter filters name filter) j ≡ (if bytes_eq name j then ok filter else at filters j)
unfolding add_filter
at-add_filter filters name j filter =
    rw (lookup-insert name j filter filters, at)
      (elim (Bool-cases (bytes_eq name j)) [ inl e ↦ rw e refl | inr e ↦ rw e refl ])

module _ (filters : Filters) (variables : Dict Bytes) (names : Keys (Lacks b'}') filters) where
  -- A name with one bar, a `}` behind it and no colon asks for a filter that is not there.
  replacement-filter :
      (a f q : Bytes)
      → length a + (length f + suc (length q)) + 2 ≤ npos
      → Lacks b'|' a
      → Lacks b'|' (f ++ b'}' ∷ q)
      → Lacks b':' (f ++ b'}' ∷ q)
      → replacement filters variables (a ++ b'|' ∷ (f ++ b'}' ∷ q)) ≡ out_of_range
  unfolding replacement
  replacement-filter a f q small ha hf hc =
      let len = length-append f (b'}' ∷ q) in
      rw (find_byte b'|' [] a (f ++ b'}' ∷ q) ha, replacement)
        (rw (split_two b'|' a (f ++ b'}' ∷ q) (omega arith) ha hf) (
          rw (find_byte-none b':' [] (f ++ b'}' ∷ q) hc, as_int-none, replacement)
            (rw
              (
                lookup-none (Lacks b'}') (f ++ b'}' ∷ q) filters names
                    (λ l. (All-append_right _ f (b'}' ∷ q) l).0 refl),
                at,
              )
              refl)))

  process_filter :
      (p a f q : Bytes) (fuel : ℕ)
      → length (placed p (a ++ b'|' ∷ f) q) < 2 ^ 31
      → Lacks 0 (placed p (a ++ b'|' ∷ f) q)
      → Lacks b'{' p
      → Lacks b'}' (a ++ b'|' ∷ f)
      → Lacks b'|' a
      → Lacks b'|' (f ++ b'}' ∷ q)
      → Lacks b':' (f ++ b'}' ∷ q)
      → process_from (suc fuel) filters variables (placed p (a ++ b'|' ∷ f) q) ≡ out_of_range
  unfolding process_from process_loop
  process_filter p a f q fuel small h hp hn ha hf hc =
      let name = a ++ b'|' ∷ f in
      let q' = take (length p) q in
      let shorten = λ (P : ℕ → Type 0) (l : All P (f ++ b'}' ∷ q)).
        All-append P f (b'}' ∷ q') (All-append_left P f _ l) (
          (All-append_right P f (b'}' ∷ q) l).0,
          All-take P (length p) q (All-append_right P f (b'}' ∷ q) l).1,
        ) in
      let fits : length a + (length f + suc (length q')) + 2 ≤ npos =
        omega (arith, length-text p name q, length-append a (b'|' ∷ f), length-take (length p) q) in
      rw (first_open p name q small hp, process_from)
        (rw (first_close p name q small hn, process_loop)
          (rw (inside p name q) (
            rw
              (
                the_variable p name q h,
                append_assoc a (b'|' ∷ f) (b'}' ∷ q'),
                replacement-filter a f q' fits ha (shorten _ hf) (shorten _ hc),
              )
              refl)))

-- A filter without an argument always throws `std::out_of_range`: with at least one variable and no
-- filter whose name holds a `}`, on a text with one placeholder `{a|f}` and no further bar and no colon
-- behind its bar. The text holds no NUL and is shorter than `2 ^ 31` bytes.
pub process_string-filter :
    (filters : Filters) (variables : Dict Bytes) (v : Bytes × Bytes) (p a f q : Bytes) (fuel : ℕ)
    → Keys (Lacks b'}') filters
    → length (placed p (a ++ b'|' ∷ f) q) < 2 ^ 31
    → Lacks 0 (placed p (a ++ b'|' ∷ f) q)
    → Lacks b'{' p
    → Lacks b'}' (a ++ b'|' ∷ f)
    → Lacks b'|' a
    → Lacks b'|' (f ++ b'}' ∷ q)
    → Lacks b':' (f ++ b'}' ∷ q)
    → process_string (suc fuel) filters (placed p (a ++ b'|' ∷ f) q) (v ∷ variables) ≡ out_of_range
unfolding process_string
process_string-filter filters variables v [] a f q fuel names small h hp hn ha hf hc =
    process_filter filters (v ∷ variables) names [] a f q fuel small h hp hn ha hf hc
process_string-filter filters variables v (c ∷ p) a f q fuel names small h hp hn ha hf hc =
    process_filter filters (v ∷ variables) names (c ∷ p) a f q fuel small h hp hn ha hf hc
