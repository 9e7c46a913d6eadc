-- ===== src/Ci/Laws.antt =====
-- The laws of the case-insensitive comparison, against the lexicographic order of folded texts.
use Prim.Native.Nat.{Ordering}
use libjustasic.Base.{
  passes_below, passes_below_lem, ℕ, zero, suc, ◌+◌, ◌<◌, ◌≡◌, ◌↔◌, ◌⊎◌, inl, inr, refl, ap, true,
  false, ◌&&◌, List, [], ◌∷◌, ◌++◌, none, some, ltb, leb, ◌==◌, if◌then◌else◌, length, min, map,
  arith, All, ==_iff, Bool-cases,
}
use libjustasic.Base.Text.{Bytes, c_str, Lacks, c_str-Lacks}
use libjustasic.Ci.{fold, eq, ne, find, compare, string_compare, equals_ci, less}

-- The rule that the table spells out.
abbrev pub lower_ascii : ℕ → ℕ
lower_ascii c = if leb b'A' c && leb c b'Z' then c + 32 else c

fold_table : passes_below (λ c. fold c == lower_ascii c) 256 ≡ true
unfolding passes_below fold
fold_table = refl

-- On every byte the table changes the letters A to Z to a to z and nothing else.
fold-lower_ascii : (c : ℕ) → c < 256 → fold c ≡ lower_ascii c
fold-lower_ascii c h = (==_iff _ _).0 (passes_below_lem _ 256 c fold_table h)

-- Texts in the order of their bytes, a prefix before its extensions.
pub lex : List ℕ → List ℕ → Ordering
lex [] [] = Ordering.eq
lex [] (y ∷ ys) = Ordering.lt
lex (x ∷ xs) [] = Ordering.gt
lex (x ∷ xs) (y ∷ ys) = if ltb y x then Ordering.gt else if ltb x y then Ordering.lt else lex xs ys

pub lex_self : (xs : List ℕ) → lex xs xs ≡ Ordering.eq
unfolding lex
lex_self [] = refl
lex_self (x ∷ xs) = ground (arith, lex_self xs)

lex-eq : (xs ys : List ℕ) → lex xs ys ≡ Ordering.eq → xs ≡ ys
unfolding lex
lex-eq [] [] h = refl
lex-eq [] (y ∷ ys) h = cc
lex-eq (x ∷ xs) [] h = cc
lex-eq (x ∷ xs) (y ∷ ys) h = ground (arith, lex-eq xs ys)

lex_trans :
    (xs ys zs : List ℕ)
    → lex xs ys ≡ Ordering.lt
    → lex ys zs ≡ Ordering.lt
    → lex xs zs ≡ Ordering.lt
unfolding lex
lex_trans [] [] zs h k = cc
lex_trans [] (y ∷ ys) [] h k = cc
lex_trans [] (y ∷ ys) (z ∷ zs) h k = refl
lex_trans (x ∷ xs) [] zs h k = cc
lex_trans (x ∷ xs) (y ∷ ys) [] h k = cc
lex_trans (x ∷ xs) (y ∷ ys) (z ∷ zs) h k = ground (arith, lex_trans xs ys zs)

lex-gt : (xs ys : List ℕ) → lex xs ys ≡ Ordering.gt → lex ys xs ≡ Ordering.lt
unfolding lex
lex-gt [] [] h = cc
lex-gt [] (y ∷ ys) h = cc
lex-gt (x ∷ xs) [] h = refl
lex-gt (x ∷ xs) (y ∷ ys) h = ground (arith, lex-gt xs ys)

abbrev by_length : ℕ → ℕ → Ordering → Ordering
by_length m n Ordering.eq =
    if ltb m n then Ordering.lt else if ltb n m then Ordering.gt else Ordering.eq
by_length m n Ordering.lt = Ordering.lt
by_length m n Ordering.gt = Ordering.gt

compare-lex :
    (s t : Bytes) (n : ℕ)
    → n ≡ min (length s) (length t)
    → Lacks 0 s
    → Lacks 0 t
    → by_length (length s) (length t) (compare s t n) ≡ lex (map fold s) (map fold t)
unfolding compare lex
compare-lex [] [] zero e hs ht = refl
compare-lex [] (y ∷ t) zero e hs ht = ground arith
compare-lex (x ∷ s) [] zero e hs ht = ground arith
compare-lex (x ∷ s) (y ∷ t) zero e hs ht = absurd (omega arith)
compare-lex [] t (suc n) e hs ht = absurd (omega arith)
compare-lex (x ∷ s) [] (suc n) e hs ht = absurd (omega arith)
compare-lex (x ∷ s) (y ∷ t) (suc n) e hs ht =
    ground (arith, hs.0, ht.0, compare-lex s t n (omega arith) hs.1 ht.1)

-- The comparison of C strings is the lexicographic order of the folded texts.
string_compare-lex :
    (s t : Bytes) → Lacks 0 s → Lacks 0 t → string_compare s t ≡ lex (map fold s) (map fold t)
unfolding string_compare
string_compare-lex s t hs ht =
    ground (arith, compare-lex s t (min (length s) (length t)) refl hs ht)

-- The two texts as `c_str()` shows them, each folded.
abbrev pub folded : Bytes → Bytes
folded s = map fold (c_str s)

equals_ci-lex :
    (s t : Bytes)
    → equals_ci s t ≡ elim (lex (folded s) (folded t)) [ Ordering.eq ↦ true | _ ↦ false ]
unfolding equals_ci
equals_ci-lex s t =
    ground (arith, string_compare-lex (c_str s) (c_str t) (c_str-Lacks s) (c_str-Lacks t))

pub less-lex :
    (s t : Bytes) → less s t ≡ elim (lex (folded s) (folded t)) [ Ordering.lt ↦ true | _ ↦ false ]
unfolding less
less-lex s t =
    ground (arith, string_compare-lex (c_str s) (c_str t) (c_str-Lacks s) (c_str-Lacks t))

-- `equals_ci` answers true exactly when the two texts agree up to the table, each read up to its
-- first NUL.
pub equals_ci_iff : (s t : Bytes) → (equals_ci s t ≡ true) ↔ (folded s ≡ folded t)
equals_ci_iff s t = (
  λ h. ground (arith, equals_ci-lex s t, lex-eq (folded s) (folded t)),
  λ e. rw (equals_ci-lex s t, e, lex_self (folded t)) refl,
)

-- Nothing is below itself for `ci::less`, and two texts of which neither is below the other are
-- equal for `equals_ci`.
pub less-IsStrict :
    (s t : Bytes)
    → (less s s ≡ false) × ((less s t ≡ true) ⊎ (equals_ci s t ≡ true) ⊎ (less t s ≡ true))
less-IsStrict s t = (
  ground (arith, less-lex s s, lex_self (folded s)),
  ground (arith, less-lex s t, less-lex t s, equals_ci-lex s t, lex-gt (folded s) (folded t)),
)

-- `ci::less` is transitive.
pub less_trans : (s t u : Bytes) → less s t ≡ true → less t u ≡ true → less s u ≡ true
less_trans s t u h k =
    ground
      (arith, less-lex s t, less-lex t u, less-lex s u, lex_trans (folded s) (folded t) (folded u))

-- `find` splits the text at the first character that is `eq` to the one sought, and returns null
-- only if there is none.
find-first :
    (s : Bytes) (c : ℕ)
    → ((find s c ≡ none) × All (λ a. eq a c ≡ false) s)
      ⊎ ((before : Bytes) × (a : ℕ) × (after : Bytes) × (find s c ≡ some (a ∷ after))
          × (s ≡ before ++ a ∷ after)
          × All (λ a. eq a c ≡ false) before
          × (eq a c ≡ true))
unfolding find ne eq
find-first [] c = inl (refl, tt)
find-first (x ∷ s) c = elim (Bool-cases (eq x c)) [
  | inl hit ↦ inr ([], x, s, ground arith, refl, tt, hit)
  | inr miss ↦ elim (find-first s c) [
    | inl (e, lacking) ↦ inl (ground arith, (miss, lacking))
    | inr (before, a, after, e, q, lacking, hit) ↦
        inr (x ∷ before, a, after, ground arith, ap (◌∷◌ x) q, (miss, lacking), hit)
  ]
]
