-- ===== src/Flux/Replace.antt =====
-- `replace_all_cs`, `replace_all_ci` and `strip`.
use mathlib.Core.Option
use native.Mathlib.Nat.{add_assoc}
use libjustasic.Base.{
  ℕ, zero, suc, ◌+◌, ◌≤◌, ◌≡◌, ◌≢◌, refl, ap, sym, ◌∙◌, Bool, List, [], ◌∷◌, ◌++◌, Option, some,
  length, take, drop, arith, All-append, All-append_left, All-append_right, All-take, All-drop,
  append_assoc, length-take, length-append, drop-append, take-append_add, drop-append_add, ◌==◌,
}
use libjustasic.Base.Text.{
  Bytes, npos, Lacks, c_str_self, index_of, index_of-nil, index_of-bound, find_from, find_from_lem,
}
use libjustasic.Flux.{
  ok, out_of_fuel, std_substr, std_substr_from, substr, substr_from, find, replace_loop,
  replace_all_cs, rounds, split, join,
}
use libjustasic.Flux.Split.{split_run}
use libjustasic.Flux.Pieces.{Pieces, last, more, glue, glue-cons, join-glue, Pieces-below}

pub substr_at :
    (s : Bytes) (pos n : ℕ) → Lacks 0 s → pos ≤ length s → substr s pos n ≡ ok (take n (drop pos s))
unfolding substr std_substr
substr_at s pos n h le =
    ground (arith, c_str_self (take n (drop pos s)) (All-take _ n _ (All-drop _ pos s h)))

substr_lem : (s : Bytes) (n : ℕ) → Lacks 0 s → substr s 0 n ≡ ok (take n s)
substr_lem s n h = substr_at s 0 n h (omega arith)

substr_from_lem :
    (s : Bytes) (pos : ℕ) → Lacks 0 s → pos ≤ length s → substr_from s pos ≡ ok (drop pos s)
unfolding substr_from std_substr_from
substr_from_lem s pos h le = ground (arith, c_str_self (drop pos s) (All-drop _ pos s h))

module _ (eqc : ℕ → ℕ → Bool) (d r : Bytes) (search : Bytes → ℕ → Option ℕ)
    (agrees : (t : Bytes) (pos : ℕ) → Lacks 0 t → search t pos ≡ find_from eqc t d pos) where
  search_at :
      (front rest : Bytes) (n : ℕ)
      → n ≡ length front
      → Lacks 0 (front ++ rest)
      → search (front ++ rest) n ≡ Option.map (λ i. n + i) (index_of eqc d rest)
  search_at front rest n e h =
      agrees (front ++ rest) n h
      ∙ find_from_lem eqc (front ++ rest) d n (omega (arith, length-append front rest))
      ∙ ap (λ t. Option.map (λ i. n + i) (index_of eqc d t)) (rw e (drop-append front rest))

  replace_round :
      (fuel : ℕ) (front rest : Bytes) (i : ℕ)
      → Lacks 0 (front ++ rest)
      → index_of eqc d rest ≡ some i
      → replace_loop (suc fuel) search d r (front ++ rest) (some (length front + i)) ≡ (
          let next = front ++ take i rest ++ r ++ drop (i + length d) rest in
          replace_loop fuel search d r next (search next (length front + i + length r)))
  unfolding replace_loop
  replace_round fuel front rest i h e =
      let fits = index_of-bound eqc d rest i e in
      let len = length-append front rest in
      let a : substr (front ++ rest) 0 (length front + i) ≡ ok (front ++ take i rest) =
        substr_lem (front ++ rest) (length front + i) h ∙ ap ok (take-append_add front rest i) in
      let b : substr_from (front ++ rest) (length front + i + length d)
          ≡ ok (drop (i + length d) rest) =
        substr_from_lem (front ++ rest) (length front + i + length d) h (omega arith)
        ∙ ap (λ k. ok (drop k (front ++ rest))) (add_assoc (length front) i (length d))
        ∙ ap ok (drop-append_add front rest (i + length d)) in
      rw a (rw b)

  length_round :
      (front rest : Bytes) (i : ℕ)
      → i ≤ length rest
      → length front + i + length r ≡ length (front ++ take i rest ++ r)
  length_round front rest i h = omega (
    arith,
    length-append (front ++ take i rest) r,
    length-append front (take i rest),
    length-take i rest,
  )

  next-Lacks :
      (front rest : Bytes) (i : ℕ)
      → Lacks 0 (front ++ rest)
      → Lacks 0 r
      → Lacks 0 (front ++ take i rest ++ r ++ drop (i + length d) rest)
  next-Lacks front rest i h hr =
      let ends = All-append_right _ front rest h in
      All-append _ (front ++ take i rest ++ r) _
        (All-append _ (front ++ take i rest) r
          (All-append _ front (take i rest) (All-append_left _ front rest h)
            (All-take _ i rest ends))
          hr)
        (All-drop _ (i + length d) rest ends)

  replace_run :
      (fuel : ℕ) {rest : Bytes} {ps : List Bytes} (front : Bytes)
      → Lacks 0 (front ++ rest)
      → Lacks 0 r
      → length ps ≤ fuel
      → Pieces eqc d rest ps
      → replace_loop fuel search d r (front ++ rest) (search (front ++ rest) (length front))
        ≡ ok (front ++ glue r ps)
  unfolding replace_loop glue
  replace_run zero front h hr f (last e) = absurd (omega arith)
  replace_run zero front h hr f (more i e p) = absurd (omega arith)
  replace_run (suc fuel) {rest} front h hr f (last e) =
      rw (search_at front rest (length front) refl h, e) refl
  replace_run (suc fuel) {rest} front h hr f (more {ps = ps} i e p) =
      rw (search_at front rest (length front) refl h, e)
        (let rest' = drop (i + length d) rest in
          let front' = front ++ take i rest ++ r in
          replace_round fuel front rest i h e
          ∙ ap (λ n. replace_loop fuel search d r (front' ++ rest') (search (front' ++ rest') n))
              (length_round front rest i (omega (arith, index_of-bound eqc d rest i e)))
          ∙ replace_run fuel {rest = rest'} front' (next-Lacks front rest i h hr) hr (omega arith) p
          ∙ ap ok
              (simp append_assoc (ap (λ t. front ++ t) (sym (glue-cons eqc d r (take i rest) p)))))

-- `replace_all_cs` with a text to replace that is not empty returns, and gives what `join` makes of
-- `split`: the pieces between the occurrences, joined by the replacement. No text holds a NUL.
pub replace_all_cs-split :
    (s orig repl : Bytes)
    → orig ≢ []
    → length s + length orig ≤ npos
    → Lacks 0 s
    → Lacks 0 repl
    → (ps : List Bytes) × (split s orig ≡ ok ps)
      × (replace_all_cs s orig repl ≡ ok (join [] ps repl))
unfolding replace_all_cs split
replace_all_cs-split s [] repl ne small hs hr = absurd (ne refl)
replace_all_cs-split s (c ∷ orig) repl ne small hs hr =
    let (ps, p, few) = Pieces-below ◌==◌ (c ∷ orig) (length s) s (omega arith) (omega arith) in
    (
      ps,
      split_run (rounds s) s (c ∷ orig) 0 [] (omega arith) small refl few p,
      replace_run ◌==◌ (c ∷ orig) repl (λ t pos. find t (c ∷ orig) pos) (λ t pos h. refl) (rounds s)
            [] hs hr few p
          ∙ ap ok (sym (join-glue [] ps repl)),
    )

-- With an empty text to replace the loop never ends, whatever the text and the replacement.
replace_loop-nil :
    (fuel : ℕ) (s repl : Bytes) (pos : ℕ)
    → Lacks 0 s
    → Lacks 0 repl
    → pos ≤ length s
    → replace_loop fuel (λ t pos. find t [] pos) [] repl s (some pos) ≡ out_of_fuel
unfolding replace_loop
replace_loop-nil zero s repl pos hs hr h = refl
replace_loop-nil (suc fuel) s repl pos hs hr h =
    let next = take pos s ++ repl ++ drop (pos + 0) s in
    let room : pos + length repl ≤ length next = omega (
      arith,
      length-append (take pos s ++ repl) (drop (pos + 0) s),
      length-append (take pos s) repl,
      length-take pos s,
    ) in
    let again : find next [] (pos + length repl) ≡ some (pos + length repl + 0) =
      find_from_lem ◌==◌ next [] (pos + length repl) room
      ∙ ap (Option.map (λ i. pos + length repl + i))
          (index_of-nil ◌==◌ (drop (pos + length repl) next)) in
    rw (substr_lem s pos hs, substr_from_lem s (pos + 0) hs (omega arith), again)
      (replace_loop-nil fuel next repl (pos + length repl + 0)
        (All-append _ (take pos s ++ repl) _
          (All-append _ (take pos s) repl (All-take _ pos s hs) hr) (All-drop _ (pos + 0) s hs))
        hr (omega arith))
