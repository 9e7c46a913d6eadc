-- ===== src/Flux/Byte.antt =====
-- Searches for one byte.
use mathlib.Core.Option
use libjustasic.Base.{
  ℕ, ◌+◌, ◌≡◌, refl, ap, ◌∙◌, [], ◌∷◌, ◌++◌, none, some, length, arith, drop-append, length-append,
  ◌==◌,
}
use libjustasic.Base.Text.{Bytes, Lacks, index_of, starts_with, find_from_lem}
use libjustasic.Flux.{find}

pub index_of_byte :
    (b : ℕ) (pre rest : Bytes)
    → Lacks b pre
    → index_of ◌==◌ (b ∷ []) (pre ++ b ∷ rest) ≡ some (length pre)
unfolding index_of starts_with
index_of_byte b [] rest h = ground arith
index_of_byte b (c ∷ pre) rest h = ground (arith, h.0, index_of_byte b pre rest h.1)

pub index_of-Lacks : (b : ℕ) (s : Bytes) → Lacks b s → index_of ◌==◌ (b ∷ []) s ≡ none
unfolding index_of starts_with
index_of-Lacks b [] h = refl
index_of-Lacks b (c ∷ s) h = ground (arith, h.0, index_of-Lacks b s h.1)

find_behind :
    (front rest d : Bytes)
    → find (front ++ rest) d (length front)
      ≡ Option.map (λ i. length front + i) (index_of ◌==◌ d rest)
find_behind front rest d =
    find_from_lem ◌==◌ (front ++ rest) d (length front) (omega (arith, length-append front rest))
    ∙ ap (λ t. Option.map (λ i. length front + i) (index_of ◌==◌ d t)) (drop-append front rest)

-- Behind `front` the byte is found at its first place.
pub find_byte :
    (b : ℕ) (front pre rest : Bytes)
    → Lacks b pre
    → find (front ++ (pre ++ b ∷ rest)) (b ∷ []) (length front) ≡ some (length front + length pre)
find_byte b front pre rest h =
    find_behind front (pre ++ b ∷ rest) (b ∷ [])
    ∙ ap (Option.map (λ i. length front + i)) (index_of_byte b pre rest h)

pub find_byte-none :
    (b : ℕ) (front rest : Bytes)
    → Lacks b rest
    → find (front ++ rest) (b ∷ []) (length front) ≡ none
find_byte-none b front rest h =
    find_behind front rest (b ∷ [])
    ∙ ap (Option.map (λ i. length front + i)) (index_of-Lacks b rest h)
