-- ===== src/Flux/Edit/Laws.antt =====
-- How the members that change a text agree with one another.
use libjustasic.Base.{
  ℕ, ◌+◌, ◌≡◌, ◌↔◌, refl, sym, ap, ◌∙◌, true, false, [], ◌∷◌, ◌++◌, ltb, if◌then◌else◌, length,
  take, drop, arith, Bool-cases, inl, inr, take-append-drop, take-append, drop-append,
  drop-append_add, length-take, length-append,
}
use Prim.Native.Nat.{Ordering}
use libjustasic.Base.Text.{Bytes}
use libjustasic.Flux.{ok, out_of_range, ◌>>=◌}
use libjustasic.Flux.Edit.{erase, insert, replace, compare, is_eq, is_lt, equals, is_less}

length_front : (s : Bytes) (n : ℕ) → ltb (length s) n ≡ false → length (take n s) ≡ n
length_front s n h = ground (arith, length-take n s)

-- What stands before and behind a position of `take n s ++ t`.
module _ (s t : Bytes) (n : ℕ) (h : ltb (length s) n ≡ false) where
  inside : ltb (length (take n s ++ t)) n ≡ false
  inside = ground (arith, length_front s n h, length-append (take n s) t)

  take_front : take n (take n s ++ t) ≡ take n s
  take_front =
      ap (λ k. take k (take n s ++ t)) (sym (length_front s n h)) ∙ take-append (take n s) t

  drop_front : (k : ℕ) → drop (n + k) (take n s ++ t) ≡ drop k t
  drop_front k =
      ap (λ m. drop (m + k) (take n s ++ t)) (sym (length_front s n h))
      ∙ drop-append_add (take n s) t k

  drop_all_front : drop n (take n s ++ t) ≡ t
  drop_all_front =
      ap (λ m. drop m (take n s ++ t)) (sym (length_front s n h)) ∙ drop-append (take n s) t

-- Erasing what was inserted gives the text back, at every position inside it; beyond its end both
-- throw.
pub insert-erase :
    (s t : Bytes) (at_ : ℕ)
    → (do r ← insert s at_ t; erase r at_ (length t))
      ≡ (if ltb (length s) at_ then out_of_range else ok s)
unfolding insert erase
insert-erase s t at_ = elim (Bool-cases (ltb (length s) at_)) [
  | inl e ↦ rw (e, ◌>>=◌) refl
  | inr e ↦
      let rest = t ++ drop at_ s in
      let a = inside s rest at_ e in
      let b = take_front s rest at_ e in
      let c = drop_front s rest at_ e (length t) ∙ drop-append t (drop at_ s) in
      rw (e, ◌>>=◌) (rw (a, b, c, take-append-drop at_ s) refl)
]

-- `replace` is `erase` and then `insert`, the exceptions included.
replace-erase :
    (s t : Bytes) (at_ n : ℕ) → replace s at_ n t ≡ (do r ← erase s at_ n; insert r at_ t)
unfolding replace insert erase
replace-erase s t at_ n = elim (Bool-cases (ltb (length s) at_)) [
  | inl e ↦ rw (e, ◌>>=◌) refl
  | inr e ↦
      let rest = drop (at_ + n) s in
      let a = inside s rest at_ e in
      let b = take_front s rest at_ e in
      let c = drop_all_front s rest at_ e in rw (e, ◌>>=◌) (rw (a, b, c) refl)
]

compare-eq : (s t : Bytes) → (compare s t ≡ Ordering.eq) ↔ (s ≡ t)
unfolding compare
compare-eq [] [] = ((λ e. refl), (λ e. refl))
compare-eq [] (d ∷ t) = ((λ e. cc), (λ e. cc))
compare-eq (c ∷ s) [] = ((λ e. cc), (λ e. cc))
compare-eq (c ∷ s) (d ∷ t) =
    ((λ e. ground (arith, compare-eq s t)), (λ e. ground (arith, compare-eq s t)))

equals_iff : (s t : Bytes) → (equals s t ≡ true) ↔ (s ≡ t)
unfolding equals
equals_iff s t =
    ((λ e. (compare-eq s t).0 (is_eq_true (compare s t) e)), (λ e. ap is_eq ((compare-eq s t).1 e)))
  where
    is_eq_true : (o : Ordering) → is_eq o ≡ true → o ≡ Ordering.eq
    is_eq_true Ordering.eq e = refl
    is_eq_true Ordering.lt e = cc
    is_eq_true Ordering.gt e = cc

abbrev pub flip : Ordering → Ordering
flip Ordering.eq = Ordering.eq
flip Ordering.lt = Ordering.gt
flip Ordering.gt = Ordering.lt

compare-flip : (s t : Bytes) → compare t s ≡ flip (compare s t)
unfolding compare
compare-flip [] [] = refl
compare-flip [] (d ∷ t) = refl
compare-flip (c ∷ s) [] = refl
compare-flip (c ∷ s) (d ∷ t) = ground (arith, compare-flip s t)

exactly_one :
    (o o' : Ordering) → o' ≡ flip o → (is_lt o ≡ true) ↔ ((is_eq o ≡ false) × (is_lt o' ≡ false))
exactly_one Ordering.eq o' h = rw h ((λ e. cc), (λ e. cc (e.0)))
exactly_one Ordering.lt o' h = rw h ((λ e. (refl, refl)), (λ e. refl))
exactly_one Ordering.gt o' h = rw h ((λ e. cc), (λ e. cc (e.1)))

-- For two texts exactly one holds of `s < t`, `s == t` and `t < s`, and `s == t` only when they are
-- the same.
is_less-trichotomy :
    (s t : Bytes)
    → ((is_less s t ≡ true) ↔ ((equals s t ≡ false) × (is_less t s ≡ false)))
      × ((equals s t ≡ true) ↔ (s ≡ t))
unfolding is_less equals
is_less-trichotomy s t =
    (exactly_one (compare s t) (compare t s) (compare-flip s t), equals_iff s t)
