-- ===== src/Flux/Pieces.antt =====
-- A specification of `split`: how a delimiter cuts a text, from the left, and the laws of the pieces.
use libjustasic.Base.{
  ℕ, zero, suc, ◌+◌, ◌≤◌, ◌<◌, ◌≡◌, ◌≢◌, refl, ap, sym, ◌∙◌, Bool, List, [], ◌∷◌, ◌++◌, none, some,
  length, take, drop, arith, All, Option-cases, append_assoc, append-nil, inl, inr, length-drop,
  ◌==◌,
}
use libjustasic.Base.Text.{Bytes, index_of, index_of-bound, index_of-take, index_of-append}
use libjustasic.Flux.{join}

-- Each piece ends before the first delimiter of what is left.
pub data Pieces (eqc : ℕ → ℕ → Bool) (d : Bytes) : Bytes → List Bytes → Type 0 where
  last : {s : Bytes} → index_of eqc d s ≡ none → Pieces eqc d s (s ∷ [])
  more :
      {s : Bytes} {ps : List Bytes} (i : ℕ)
      → index_of eqc d s ≡ some i
      → Pieces eqc d (drop (i + length d) s) ps
      → Pieces eqc d s (take i s ∷ ps)

-- The pieces with a text between each two.
unfoldable pub glue : Bytes → List Bytes → Bytes
glue d [] = []
glue d (p ∷ []) = p
glue d (p ∷ q ∷ ps) = p ++ (d ++ glue d (q ∷ ps))

pub join-glue : (str : Bytes) (ps : List Bytes) (d : Bytes) → join str ps d ≡ str ++ glue d ps
unfolding join glue
join-glue str [] d = sym (append-nil str)
join-glue str (p ∷ []) d = refl
join-glue str (p ∷ q ∷ ps) d = join-glue (str ++ (p ++ d)) (q ∷ ps) d ∙ simp append_assoc

module _ (eqc : ℕ → ℕ → Bool) (d : Bytes) where
  pub glue-cons :
      {s : Bytes} {ps : List Bytes} (r : Bytes) (p : Bytes)
      → Pieces eqc d s ps
      → glue r (p ∷ ps) ≡ p ++ (r ++ glue r ps)
  unfolding glue
  glue-cons r p (last e) = refl
  glue-cons r p (more i e h) = refl

  -- Every text has its pieces, at most one more than it has bytes.
  pub Pieces-below :
      (n : ℕ) (s : Bytes)
      → 0 < length d
      → length s ≤ n
      → (ps : List Bytes) × Pieces eqc d s ps × (length ps ≤ length s + 1)
  Pieces-below zero s nd h = elim (Option-cases (index_of eqc d s)) [
    | inl e ↦ (s ∷ [], last e, omega arith)
    | inr (i, e) ↦ absurd (omega (arith, index_of-bound eqc d s i e))
  ]
  Pieces-below (suc n) s nd h = elim (Option-cases (index_of eqc d s)) [
    | inl e ↦ (s ∷ [], last e, omega arith)
    | inr (i, e) ↦
        let rest = drop (i + length d) s in
        let fits = index_of-bound eqc d s i e in
        let shorter = length-drop (i + length d) s in
        let (ps, h', few) = Pieces-below n rest nd (omega arith) in
        (take i s ∷ ps, more i e h', omega arith)
  ]

  pub Pieces-Lacking :
      {s : Bytes} {ps : List Bytes}
      → d ≢ []
      → Pieces eqc d s ps
      → All (λ p. index_of eqc d p ≡ none) ps
  Pieces-Lacking ne (last e) = (e, tt)
  Pieces-Lacking ne (more {s = s} i e h) = (index_of-take eqc d s i ne e, Pieces-Lacking ne h)

pub glue-Pieces : (d : Bytes) {s : Bytes} {ps : List Bytes} → Pieces ◌==◌ d s ps → glue d ps ≡ s
unfolding glue
glue-Pieces d (last e) = refl
glue-Pieces d (more {s = s} i e h) =
    glue-cons ◌==◌ d d (take i s) h
    ∙ ap (λ t. take i s ++ (d ++ t)) (glue-Pieces d h)
    ∙ sym (index_of-append d s i e)
