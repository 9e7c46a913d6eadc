-- ===== src/Flux/Trim.antt =====
-- `trim` and `isolate`.
use Prim.Native.Nat.add
use libjustasic.Base.{
  ◌⊎◌, ℕ, zero, suc, ◌-◌, ◌≡◌, refl, ap, sym, ◌∙◌, true, false, [], ◌∷◌, ◌++◌, length, take, get_or,
  arith, All, All-append, Bool-cases, append_assoc, append-nil, inl, inr, length-take, ne→==,
  ==_refl, drop-append_add,
}
use libjustasic.Base.Text.{Bytes, Lacks}
use libjustasic.Flux.Byte.{find_byte, find_byte-none}
use libjustasic.Flux.{is_space, trim_front, trim_back, trim, isolate_loop, isolate}

abbrev Spaces : Bytes → Type 0
Spaces = All (λ c. is_space c ≡ true)

-- Neither end of the text is a space.
abbrev pub IsTrimmed : Bytes → Type 0
IsTrimmed t =
    (t ≡ []) ⊎ ((is_space (get_or t 0 0) ≡ false) × (is_space (get_or t (length t - 1) 0) ≡ false))

abbrev StartsPlain : Bytes → Type 0
StartsPlain t = (t ≡ []) ⊎ (is_space (get_or t 0 0) ≡ false)

trim_front_lem :
    (s : Bytes)
    → (pre : Bytes) × (s ≡ pre ++ trim_front s) × Spaces pre × StartsPlain (trim_front s)
unfolding trim_front
trim_front_lem [] = ([], refl, tt, inl refl)
trim_front_lem (c ∷ s) = elim (Bool-cases (is_space c)) [
  | inl space ↦
      let (pre, e, spaces, start) = trim_front_lem s in
      rw (space, trim_front) (c ∷ pre, ap (◌∷◌ c) e, (space, spaces), start)
  | inr other ↦ rw (other, trim_front) ([], refl, tt, inr other)
]

take-get_or : (s : Bytes) (n : ℕ) → length s ≡ suc n → s ≡ take n s ++ get_or s n 0 ∷ []
take-get_or [] n h = absurd (omega arith)
take-get_or (c ∷ []) zero h = refl
take-get_or (c ∷ d ∷ s) zero h = absurd (omega arith)
take-get_or (c ∷ s) (suc n) h = ap (◌∷◌ c) (take-get_or s n (omega arith))

length_take_lem : (n : ℕ) (s : Bytes) → length s ≡ suc n → length (take n s) ≡ n
length_take_lem n s h = omega (arith, length-take n s)

pred_lem : (n : ℕ) → suc n - 1 ≡ n
pred_lem n = omega arith

take-StartsPlain : (n : ℕ) (s : Bytes) → StartsPlain s → StartsPlain (take n s)
take-StartsPlain zero s p = inl refl
take-StartsPlain (suc n) [] p = inl refl
take-StartsPlain (suc n) (c ∷ s) (inl e) = cc
take-StartsPlain (suc n) (c ∷ s) (inr e) = inr e

starts_lem :
    {n : ℕ} (s : Bytes) → StartsPlain s → length s ≡ suc n → is_space (get_or s 0 0) ≡ false
starts_lem [] p h = absurd (omega arith)
starts_lem (c ∷ s) (inl e) h = cc
starts_lem (c ∷ s) (inr e) h = e

trim_back_lem :
    (n : ℕ) (s : Bytes)
    → length s ≡ n
    → StartsPlain s
    → (post : Bytes) × (s ≡ trim_back n s ++ post) × Spaces post × IsTrimmed (trim_back n s)
unfolding trim_back
trim_back_lem zero [] h p = ([], refl, tt, inl refl)
trim_back_lem zero (c ∷ s) h p = absurd (omega arith)
trim_back_lem (suc n) s h p = elim (Bool-cases (is_space (get_or s n 0))) [
  | inl space ↦
      rw (space, trim_back)
        (let (post, e, spaces, trimmed) =
            trim_back_lem n (take n s) (length_take_lem n s h) (take-StartsPlain n s p) in
          (
            post ++ get_or s n 0 ∷ [],
            take-get_or s n h
                ∙ ap (λ t. t ++ get_or s n 0 ∷ []) e
                ∙ append_assoc (trim_back n (take n s)) post (get_or s n 0 ∷ []),
            All-append _ post _ spaces (space, tt),
            trimmed,
          ))
  | inr other ↦
      rw (other, trim_back)
        ([], sym (append-nil s), tt, inr (starts_lem s p h, rw (h, pred_lem n) other))
]

-- `trim` takes white space off both ends and nothing else, and leaves none at either end.
pub trim_lem :
    (s : Bytes)
    → (pre post : Bytes) × (s ≡ pre ++ (trim s ++ post))
      × All (λ c. is_space c ≡ true) pre
      × All (λ c. is_space c ≡ true) post
      × IsTrimmed (trim s)
unfolding trim
trim_lem s =
    let (pre, e, spaces, start) = trim_front_lem s in
    let (post, e', spaces', trimmed) =
      trim_back_lem (length (trim_front s)) (trim_front s) refl start in
    (pre, post, e ∙ ap (λ t. pre ++ t) e', spaces, spaces', trimmed)

isolate_loop_lem :
    (mid : Bytes) (e : ℕ) (post : Bytes) → Lacks e mid → isolate_loop (mid ++ e ∷ post) e ≡ mid
unfolding isolate_loop
isolate_loop_lem [] e post h = rw (==_refl e, isolate_loop)
isolate_loop_lem (c ∷ mid) e post h =
    rw (ne→== c e h.0, isolate_loop) (ap (◌∷◌ c) (isolate_loop_lem mid e post h.1))

-- `isolate(b, e)` gives the text between the first `b` and the first `e` behind it. Where there is
-- no `b` it starts at the beginning of the text instead of failing.
isolate_lem :
    (pre mid post : Bytes) (b e : ℕ)
    → Lacks b pre
    → Lacks e mid
    → (isolate (pre ++ b ∷ (mid ++ e ∷ post)) b e ≡ mid)
      × (Lacks b (mid ++ e ∷ post) → isolate (mid ++ e ∷ post) b e ≡ mid)
unfolding isolate
isolate_lem pre mid post b e hb he = (
  rw (find_byte b [] pre (mid ++ e ∷ post) hb, isolate)
      (rw (add.zero (length pre), drop-append_add pre (b ∷ (mid ++ e ∷ post)) 1)
        (isolate_loop_lem mid e post he)),
  (λ h. rw (find_byte-none b [] (mid ++ e ∷ post) h, isolate) (isolate_loop_lem mid e post he)),
)
