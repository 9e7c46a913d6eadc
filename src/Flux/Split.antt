-- ===== src/Flux/Split.antt =====
-- `split` and `join`.
use libjustasic.Base.{
  ℕ, zero, suc, ◌+◌, ◌-◌, ◌≤◌, ◌<◌, ◌≡◌, ◌≢◌, refl, ap, sym, ◌∙◌, List, [], ◌∷◌, ◌++◌, none, some,
  length, take, drop, arith, All, append_assoc, length-drop, drop-drop, ◌==◌, length-append,
  take-append, drop-append_add, subst,
}
use mathlib.Core.Option
use libjustasic.Base.Text.{
  Bytes, Lacks, npos, find_from, index_of, index_of-nil, index_of-bound, find_from_lem,
}
use libjustasic.Flux.{
  ok, out_of_fuel, std_substr, std_substr_from, behind, split_loop, split, join, rounds,
}
use libjustasic.Flux.Byte.{index_of_byte, index_of-Lacks}
use libjustasic.Flux.Pieces.{
  Pieces, last, more, join-glue, Pieces-below, Pieces-Lacking, glue-Pieces,
}

std_substr_lem :
    (s : Bytes) (pos n : ℕ) → pos ≤ length s → std_substr s pos n ≡ ok (take n (drop pos s))
unfolding std_substr
std_substr_lem s pos n h = ground arith

std_substr_from_lem :
    (s : Bytes) (pos : ℕ) → pos ≤ length s → std_substr_from s pos ≡ ok (drop pos s)
unfolding std_substr_from
std_substr_from_lem s pos h = ground arith

behind_lem : (end n : ℕ) → end + n ≤ npos → behind end n ≡ end + n
unfolding behind
behind_lem end n h = ground arith

find_some :
    (s d : Bytes) (start i : ℕ)
    → start ≤ length s
    → index_of ◌==◌ d (drop start s) ≡ some i
    → find_from ◌==◌ s d start ≡ some (start + i)
find_some s d start i h e = find_from_lem ◌==◌ s d start h ∙ ap (Option.map (λ i. start + i)) e

find_none :
    (s d : Bytes) (start : ℕ)
    → start ≤ length s
    → index_of ◌==◌ d (drop start s) ≡ none
    → find_from ◌==◌ s d start ≡ none
find_none s d start h e = find_from_lem ◌==◌ s d start h ∙ ap (Option.map (λ i. start + i)) e

add-sub_cancel : (a b : ℕ) → a + b - a ≡ b
add-sub_cancel a b = omega arith

-- One round at a delimiter.
split_round :
    (fuel : ℕ) (s d : Bytes) (start i : ℕ) (ret : List Bytes)
    → start ≤ length s
    → length s + length d ≤ npos
    → index_of ◌==◌ d (drop start s) ≡ some i
    → split_loop (suc fuel) s d start ret
      ≡ split_loop fuel s d (start + i + length d) (ret ++ take i (drop start s) ∷ [])
unfolding split_loop
split_round fuel s d start i ret h small e =
    let fits : start + i + length d ≤ npos =
      omega (arith, index_of-bound ◌==◌ d (drop start s) i e, length-drop start s) in
    rw (find_some s d start i h e, split_loop, add-sub_cancel start i)
      (rw (std_substr_lem s start i h, behind_lem (start + i) (length d) fits))

drop_at :
    (rest s : Bytes) (start i n : ℕ)
    → rest ≡ drop start s
    → drop (i + n) rest ≡ drop (start + i + n) s
drop_at rest s start i n r =
    ap (drop (i + n)) r ∙ drop-drop (i + n) start s ∙ ap (λ k. drop k s) (omega arith)

-- The loop returns the pieces of the rest of the text.
pub split_run :
    (fuel : ℕ) {rest : Bytes} {ps : List Bytes} (s d : Bytes) (start : ℕ) (ret : List Bytes)
    → start ≤ length s
    → length s + length d ≤ npos
    → rest ≡ drop start s
    → length ps ≤ fuel
    → Pieces ◌==◌ d rest ps
    → split_loop fuel s d start ret ≡ ok (ret ++ ps)
unfolding split_loop
split_run zero s d start ret h small r f (last e) = absurd (omega arith)
split_run zero s d start ret h small r f (more i e p) = absurd (omega arith)
split_run (suc fuel) s d start ret h small r f (last e) =
    rw (find_none s d start h (rw r at e), split_loop)
      (rw (std_substr_from_lem s start h) (ap (λ t. ok (ret ++ t ∷ [])) (sym r)))
split_run (suc fuel) {rest} s d start ret h small r f (more {ps = ps} i e p) =
    let e' : index_of ◌==◌ d (drop start s) ≡ some i = rw r at e in
    let fits = index_of-bound ◌==◌ d (drop start s) i e' in
    let len = length-drop start s in
    split_round fuel s d start i ret h small e'
    ∙ split_run fuel {rest = drop (i + length d) rest} s d (start + i + length d)
        (ret ++ take i (drop start s) ∷ []) (omega arith) small
        (drop_at rest s start i (length d) r) (omega arith) p
    ∙ ap ok (append_assoc ret (take i (drop start s) ∷ []) ps)
    ∙ ap (λ t. ok (ret ++ take i t ∷ ps)) (sym r)

-- `split` at a delimiter that is not empty returns, and returns the pieces of the text: joined with
-- the delimiter they are the text again, and none of them holds the delimiter.
pub split-Pieces :
    (s d : Bytes)
    → d ≢ []
    → length s + length d ≤ npos
    → (ps : List Bytes) × (split s d ≡ ok ps)
      × Pieces ◌==◌ d s ps
      × (join [] ps d ≡ s)
      × All (λ p. index_of ◌==◌ d p ≡ none) ps
unfolding split
split-Pieces s [] ne small = absurd (ne refl)
split-Pieces s (c ∷ d) ne small =
    let (ps, p, few) = Pieces-below ◌==◌ (c ∷ d) (length s) s (omega arith) (omega arith) in
    (
      ps,
      split_run (rounds s) s (c ∷ d) 0 [] (omega arith) small refl few p,
      p,
      join-glue [] ps (c ∷ d) ∙ glue-Pieces (c ∷ d) p,
      Pieces-Lacking ◌==◌ (c ∷ d) ne p,
    )

-- With the empty delimiter the loop never ends, whatever the text: no number of rounds is enough.
split_loop-nil :
    (fuel : ℕ) (s : Bytes) (start : ℕ) (ret : List Bytes)
    → length s < npos
    → start ≤ length s
    → split_loop fuel s [] start ret ≡ out_of_fuel
unfolding split_loop
split_loop-nil zero s start ret small h = refl
split_loop-nil (suc fuel) s start ret small h =
    split_round fuel s [] start 0 ret h (omega arith) (index_of-nil ◌==◌ (drop start s))
    ∙ split_loop-nil fuel s (start + 0 + 0) (ret ++ take 0 (drop start s) ∷ []) small (omega arith)

cut_at :
    (b : ℕ) (a rest : Bytes)
    → Lacks b a
    → Lacks b rest
    → Pieces ◌==◌ (b ∷ []) (a ++ b ∷ rest) (take (length a) (a ++ b ∷ rest) ∷ rest ∷ [])
cut_at b a rest ha hr = more (length a) (index_of_byte b a rest ha) (
    subst (λ t. Pieces ◌==◌ (b ∷ []) t (rest ∷ [])) (sym (drop-append_add a (b ∷ rest) 1))
      (last (index_of-Lacks b rest hr)))

-- A text with one delimiter of one byte is cut there.
pub split_two :
    (b : ℕ) (a rest : Bytes)
    → length a + length rest + 2 ≤ npos
    → Lacks b a
    → Lacks b rest
    → split (a ++ b ∷ rest) (b ∷ []) ≡ ok (a ∷ rest ∷ [])
unfolding split
split_two b a rest small ha hr =
    let len = length-append a (b ∷ rest) in
    split_run (rounds (a ++ b ∷ rest)) (a ++ b ∷ rest) (b ∷ []) 0 [] (omega arith) (omega arith)
      refl (omega arith) (cut_at b a rest ha hr)
    ∙ ap (λ t. ok (t ∷ rest ∷ [])) (take-append a (b ∷ rest))
