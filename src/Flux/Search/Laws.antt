-- ===== src/Flux/Search/Laws.antt =====
-- What the searches find.
use libjustasic.Base.{
  ℕ, zero, suc, ◌-◌, ◌≡◌, ◌≤◌, ◌<◌, ◌↔◌, refl, sym, ap, ◌∙◌, Bool, true, false, not, ◌||◌, [], ◌∷◌,
  Option, none, some, ltb, ◌==◌, length, drop, min, arith, Bool-cases, Option-cases, ==_iff, inl,
  inr, All, All-map, ℤ, pos, negsuc,
}
use libjustasic.Base.Text.{Bytes, codes, starts_with}
use libjustasic.Flux.{is_found}
use libjustasic.Flux.Number.{is_digit, unsigned_string, to_string}
use libjustasic.Flux.Number.Casts.{unsigned_string-All}
use libjustasic.Flux.Search.{
  one_of, up, first_where, first_from, find_first_not_of, is_number_only, is_pos_number_only,
  rfind_down, rfind_by, rfind,
}

-- The only occurrence of interest: at `i`, and at no later place up to `top`.
abbrev pub IsLast : (ℕ → ℕ → Bool) → Bytes → Bytes → ℕ → Option ℕ → Type 0
IsLast eqc s str top none = (j : ℕ) → j ≤ top → starts_with eqc str (drop j s) ≡ false
IsLast eqc s str top (some i) =
    (i ≤ top)
    × (starts_with eqc str (drop i s) ≡ true)
    × ((j : ℕ) → i < j → j ≤ top → starts_with eqc str (drop j s) ≡ false)

at_zero :
    (eqc : ℕ → ℕ → Bool) (s str : Bytes) (j : ℕ)
    → j ≡ 0
    → starts_with eqc str (drop j s) ≡ starts_with eqc str s
at_zero eqc s str j e = ap (λ k. starts_with eqc str (drop k s)) e

one_more :
    (eqc : ℕ → ℕ → Bool) (s str : Bytes) (top : ℕ) (r : Option ℕ)
    → IsLast eqc s str top r
    → starts_with eqc str (drop (suc top) s) ≡ false
    → IsLast eqc s str (suc top) r
one_more eqc s str top none h e = λ j l. elim (Bool-cases (j == suc top)) [
  | inl q ↦ ap (λ k. starts_with eqc str (drop k s)) ((==_iff j (suc top)).0 q) ∙ e
  | inr q ↦ h j (ground arith)
]
one_more eqc s str top (some i) h e = (
  omega (arith, h.0),
  h.1,
  λ j l m. elim (Bool-cases (j == suc top)) [
    | inl q ↦ ap (λ k. starts_with eqc str (drop k s)) ((==_iff j (suc top)).0 q) ∙ e
    | inr q ↦ h.2 j l (ground arith)
  ],
)

up-none : (o : Option ℕ) → up o ≡ none → o ≡ none
up-none none e = refl
up-none (some i) e = cc

rfind_down-IsLast :
    (eqc : ℕ → ℕ → Bool) (s str : Bytes) (top : ℕ) → IsLast eqc s str top (rfind_down eqc s str top)
unfolding rfind_down
rfind_down-IsLast eqc s str zero = elim (Bool-cases (starts_with eqc str s)) [
  | inl e ↦ rw e (omega arith, e, λ j l m. absurd (omega arith))
  | inr e ↦ rw e (λ j l. at_zero eqc s str j (omega arith) ∙ e)
]
rfind_down-IsLast eqc s str (suc top) = elim (Bool-cases (starts_with eqc str (drop (suc top) s))) [
  | inl e ↦ rw e (omega arith, e, λ j l m. absurd (omega arith))
  | inr e ↦
      rw e (one_more eqc s str top (rfind_down eqc s str top) (rfind_down-IsLast eqc s str top) e)
]

-- `rfind` finds the last occurrence that begins at `pos` or before, and nothing only when there is
-- none.
pub rfind-IsLast :
    (s str : Bytes) (from_ : ℕ)
    → length str ≤ length s
    → IsLast ◌==◌ s str (min (length s - length str) from_) (rfind s str from_)
unfolding rfind rfind_by
rfind-IsLast s str from_ h =
    let e : ltb (length s) (length str) ≡ false = ground arith in
    rw e (rfind_down-IsLast ◌==◌ s str (min (length s - length str) from_))

-- The first text has only characters of the second.
first_where-none : (p : ℕ → Bool) (s : Bytes) → (first_where p s ≡ none) ↔ All (λ c. p c ≡ false) s
unfolding first_where
first_where-none p [] = ((λ e. tt), (λ h. refl))
first_where-none p (c ∷ s) = elim (Bool-cases (p c)) [
  | inl e ↦ rw e ((λ q. absurd (cc)), (λ h. absurd (cc (h.0))))
  | inr e ↦ rw e (
    (λ q. (refl, (first_where-none p s).0 (up-none (first_where p s) q))),
    (λ h. ap up ((first_where-none p s).1 h.1)),
  )
]

is_found-first_from :
    (p : ℕ → Bool) (s : Bytes) → is_found (first_from p s 0) ≡ is_found (first_where p s)
unfolding first_from
is_found-first_from p [] = unfold first_where in refl
is_found-first_from p (c ∷ s) = elim (Option-cases (first_where p (c ∷ s))) [
  | inl e ↦
      let inside : ltb 0 (suc (length s)) ≡ true = ground arith in
      rw inside (rw (e, first_from) refl)
  | inr (i, e) ↦
      let inside : ltb 0 (suc (length s)) ≡ true = ground arith in
      rw inside (rw (e, first_from) refl)
]

not-is_found : (o : Option ℕ) → (not (is_found o) ≡ true) ↔ (o ≡ none)
not-is_found none = ((λ e. refl), (λ e. refl))
not-is_found (some i) = ((λ e. cc), (λ e. cc))

not_is_true : (b : Bool) → (not b ≡ false) ↔ (b ≡ true)
not_is_true true = ((λ e. refl), (λ e. refl))
not_is_true false = ((λ e. cc), (λ e. cc))

-- The search for another character finds none exactly when all are among them.
only_chars :
    (str s : Bytes) (q : ℕ → Bool)
    → ((c : ℕ) → one_of ◌==◌ str c ≡ q c)
    → (not (is_found (find_first_not_of s str 0)) ≡ true) ↔ All (λ c. q c ≡ true) s
unfolding find_first_not_of
only_chars str s q same =
    let p : ℕ → Bool = λ c. not (one_of ◌==◌ str c) in
    let found = is_found-first_from p s in
    let iff = not-is_found (first_where p s) in
    let all = first_where-none p s in
    (
      λ e.
          All-map (λ c. p c ≡ false) (λ c. q c ≡ true)
            (λ c h. sym (same c) ∙ (not_is_true (one_of ◌==◌ str c)).0 h) s
            (all.0 (iff.0 (ap not (sym found) ∙ e))),
      λ h.
          ap not found
          ∙ iff.1 (
              all.1 (
                All-map (λ c. q c ≡ true) (λ c. p c ≡ false)
                  (λ c k. (not_is_true (one_of ◌==◌ str c)).1 (same c ∙ k)) s h)),
    )

abbrev pub is_pos_number : ℕ → Bool
is_pos_number c = is_digit c || c == b'.'

abbrev pub is_number : ℕ → Bool
is_number c = is_digit c || (c == b'.' || c == b'-')

digit_or_dot : (c : ℕ) → one_of ◌==◌ (codes "0123456789.") c ≡ is_pos_number c
unfolding one_of
digit_or_dot c = ground arith

digit_dot_or_minus : (c : ℕ) → one_of ◌==◌ (codes "0123456789.-") c ≡ is_number c
unfolding one_of
digit_dot_or_minus c = ground arith

-- `is_number_only` holds exactly when each character is a digit, a dot or a minus sign, wherever they
-- stand, and `is_pos_number_only` without the minus sign: so both hold of the empty text.
is_number_only_lem :
    (s : Bytes)
    → ((is_number_only s ≡ true) ↔ All (λ c. is_number c ≡ true) s)
      × ((is_pos_number_only s ≡ true) ↔ All (λ c. is_pos_number c ≡ true) s)
unfolding is_number_only is_pos_number_only
is_number_only_lem s = (
  only_chars (codes "0123456789.-") s is_number digit_dot_or_minus,
  only_chars (codes "0123456789.") s is_pos_number digit_or_dot,
)

widen : (s : Bytes) → All (λ c. is_digit c ≡ true) s → All (λ c. is_number c ≡ true) s
widen s h = All-map (λ c. is_digit c ≡ true) (λ c. is_number c ≡ true) (λ c e. rw e refl) s h

-- The text of every integer passes `is_number_only`.
is_number_only-to_string : (z : ℤ) → is_number_only (to_string z) ≡ true
unfolding to_string
is_number_only-to_string (pos n) =
    (is_number_only_lem (unsigned_string n)).0.1 (widen _ (unsigned_string-All n))
is_number_only-to_string (negsuc n) =
    (is_number_only_lem (b'-' ∷ unsigned_string (suc n))).0.1
      (refl, widen _ (unsigned_string-All (suc n)))
