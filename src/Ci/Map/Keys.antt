-- ===== src/Ci/Map/Keys.antt =====
-- The keys of `insensitive_map`.
use libjustasic.Base.{
  ◌≡◌, refl, true, false, Bool-cases, inl, inr, arith, ◌↔◌, sym, ◌∙◌, ap, ◌⊎◌, ◌≢◌,
}
use mathlib.Core.Quot
use mathlib.Core.Quot.{Quot, Quot-set}
use libjustasic.Base.Text.{Bytes}
use libjustasic.Ci.{less, equals_ci}
use libjustasic.Ci.Laws.{folded, equals_ci_iff, less-lex, less-IsStrict, less_trans}

-- `std::map` takes two keys for the same when neither is below the other.
abbrev pub SameKey : Bytes → Bytes → Type 0
SameKey s t = (less s t ≡ false) × (less t s ≡ false)

abbrev pub Key : Type 0
Key = Quot SameKey

Bytes-set : IsSet Bytes
Bytes-set = hlevel

SameKey-folded : (s t : Bytes) → SameKey s t → folded s ≡ folded t
SameKey-folded s t h = ground (arith, less-IsStrict s t, equals_ci_iff s t)

-- Texts with one folding compare alike with every text.
pub same_less :
    (s t u : Bytes) → folded s ≡ folded t → (less s u ≡ less t u) × (less u s ≡ less u t)
same_less s t u e =
    (rw (less-lex s u, less-lex t u, e) refl, rw (less-lex u s, less-lex u t, e) refl)

folded_key : Key → Bytes
folded_key = Quot.lift Bytes-set folded SameKey-folded

-- Two texts are one key of the map exactly when `equals_ci` says that they are equal.
pub Key-equals_ci : (s t : Bytes) → (◌≡◌ {A = Key} (Quot.mk s) (Quot.mk t)) ↔ (equals_ci s t ≡ true)
unfolding folded_key
Key-equals_ci s t = (
  λ e. (equals_ci_iff s t).1 (ap folded_key e),
  λ h.
      let e = (equals_ci_iff s t).0 h in
      let (l, r) = same_less s t t e in
      let none_below = (less-IsStrict t t).0 in Quot.sound (l ∙ none_below, r ∙ none_below),
)

pub above : (s t : Bytes) → less s t ≡ true → less t s ≡ false
above s t h = elim (Bool-cases (less t s)) [
  | inl e ↦ absurd (let q = less_trans s t s h e in let r = (less-IsStrict s s).0 in cc)
  | inr e ↦ e
]

not_same : (s t : Bytes) → less s t ≡ true → folded s ≢ folded t
not_same s t h e = let q = (same_less s t t e).0 in let r = (less-IsStrict t t).0 in cc

differs : (s t : Bytes) → folded s ≢ folded t → equals_ci s t ≡ false
differs s t n = elim (Bool-cases (equals_ci s t)) [
  | inl e ↦ absurd (n ((equals_ci_iff s t).0 e))
  | inr e ↦ e
]

-- How two keys lie to each other, with all that `less` and `equals_ci` answer.
abbrev pub Below : Bytes → Bytes → Type 0
Below s t =
    (less s t ≡ true) × (less t s ≡ false) × (equals_ci s t ≡ false) × (equals_ci t s ≡ false)

abbrev pub Same : Bytes → Bytes → Type 0
Same s t = (folded s ≡ folded t) × (equals_ci s t ≡ true) × (less s t ≡ false) × (less t s ≡ false)

pub below : (s t : Bytes) → less s t ≡ true → Below s t
below s t h =
    (h, above s t h, differs s t (not_same s t h), differs t s (λ e. not_same s t h (sym e)))

pub same : (s t : Bytes) → equals_ci s t ≡ true → Same s t
same s t h =
    let e = (equals_ci_iff s t).0 h in
    let none_below = (less-IsStrict t t).0 in
    let (l, r) = same_less s t t e in (e, h, l ∙ none_below, r ∙ none_below)

pub compared : (s t : Bytes) → Below s t ⊎ Same s t ⊎ Below t s
compared s t = elim ((less-IsStrict s t).1) [
  | inl h ↦ inl (below s t h)
  | inr (inl h) ↦ inr (inl (same s t h))
  | inr (inr h) ↦ inr (inr (below t s h))
]
