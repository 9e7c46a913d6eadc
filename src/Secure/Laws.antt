-- ===== src/Secure/Laws.antt =====
-- What `timing_safe_strcmp` decides, and what it misses.
use libjustasic.Base.{
  ℕ, zero, suc, ◌+◌, ◌-◌, ◌≤◌, ◌<◌, ◌^◌, ◌≡◌, ◌≢◌, ◌↔◌, ◌⊎◌, inl, inr, refl, ap, sym, ◌∙◌, Bool,
  true, [], ◌∷◌, ◌++◌, Option, some, ◌==◌, length, replicate, length-replicate, append-nil,
  append-cons-ne-nil, arith, bit_or, bit_xor, bit_or-eq-zero, bit_xor-eq-zero, bit_xor_self,
  zero-bit_or, append_assoc, length-append,
}
use mathlib.Core.Path.{ap₂}
use libjustasic.Base.Text.{Bytes}
use libjustasic.Secure.{char_at, tmax, against, gather, timing_safe_strcmp}

char_at-append : (p : Bytes) (c : ℕ) (q : Bytes) → char_at (p ++ c ∷ q) (length p) ≡ some c
unfolding char_at
char_at-append [] c q = refl
char_at-append (x ∷ p) c q = char_at-append p c q

tmax_lem : (s : Bytes) → 0 < length s → length s ≤ 2 ^ 64 → tmax s ≡ length s - 1
unfolding tmax
tmax_lem s h k = omega arith

-- The first `n` characters of a text that is continued by its last character for ever.
pub pad : ℕ → Bytes → Bytes
pad zero t = []
pad (suc n) [] = []
pad (suc n) (x ∷ []) = x ∷ pad n (x ∷ [])
pad (suc n) (x ∷ y ∷ t) = x ∷ pad n (y ∷ t)

-- Where the loop stands: at index `length p`, or past the end when that is the last index.
abbrev At : ℕ → Bytes → Bytes → Type 0
At n p q = (n ≡ length p) ⊎ ((length p ≤ n) × (q ≡ []))

char_at_index :
    (p : Bytes) (d : ℕ) (q : Bytes) (n : ℕ) → n ≡ length p → char_at (p ++ d ∷ q) n ≡ some d
char_at_index p d q n e = rw e (char_at-append p d q)

tmax_last :
    (p : Bytes) (d : ℕ) (q : Bytes)
    → length (p ++ d ∷ q) ≤ 2 ^ 64
    → tmax (p ++ d ∷ q) ≡ length p + length q
tmax_last p d q h = omega (
  arith,
  length-append p (d ∷ q),
  tmax_lem (p ++ d ∷ q) (omega (arith, length-append p (d ∷ q))) h,
)

against_lem :
    (p : Bytes) (d : ℕ) (q : Bytes) (n : ℕ)
    → length (p ++ d ∷ q) ≤ 2 ^ 64
    → At n p q
    → against (p ++ d ∷ q) n ≡ some d
unfolding against
against_lem p d q n h (inl i) = ground (arith, tmax_last p d q h, char_at_index p d q n i)
against_lem p d q n h (inr (i, e)) = ground (
  arith,
  ap length e,
  tmax_last p d q h,
  char_at_index p d q n,
  char_at_index p d q (tmax (p ++ d ∷ q)),
)

-- What a run of the loop finds out.
abbrev Outcome : Option ℕ → ℕ → Bytes → Bytes → Type 0
Outcome o ret s t = (r : ℕ) × (o ≡ some r) × ((r ≡ 0) ↔ ((ret ≡ 0) × (s ≡ t)))

xor_same : (c d : ℕ) → c ≡ d → bit_xor c d ≡ 0
xor_same c d e = rw e (bit_xor_self d)

cons_inj : {c d : ℕ} {s t : Bytes} → ◌≡◌ {A = Bytes} (c ∷ s) (d ∷ t) → (c ≡ d) × (s ≡ t)
cons_inj e = ground arith

Outcome-cons :
    (o : Option ℕ) (c d ret : ℕ) (s t : Bytes)
    → Outcome o (bit_or ret (bit_xor c d)) s t
    → Outcome o ret (c ∷ s) (d ∷ t)
Outcome-cons o c d ret s t (r, e, f) = (
  r,
  e,
  (
    (λ z.
        let (g, same) = f.0 z in
        let (none_yet, x) = bit_or-eq-zero ret (bit_xor c d) g in
        (none_yet, ap₂ ◌∷◌ (bit_xor-eq-zero c d x) same)),
    (λ z. f.1 ((rw (z.0, zero-bit_or) (xor_same c d (cons_inj z.1).0)), (cons_inj z.1).1)),
  ),
)

gather-Outcome :
    (s p : Bytes) (d : ℕ) (q : Bytes) (n ret : ℕ)
    → length (p ++ d ∷ q) ≤ 2 ^ 64
    → At n p q
    → Outcome (gather s (p ++ d ∷ q) n ret) ret s (pad (length s) (d ∷ q))
unfolding gather pad
gather-Outcome [] p d q n ret h i = (ret, refl, ((λ z. (z, refl)), (λ z. z.0)))
gather-Outcome (c ∷ s) p d [] n ret h i =
    rw (against_lem p d [] n h i, gather)
      (Outcome-cons _ c d ret s _ (gather-Outcome s p d [] (n + 1) _ h (inr (omega arith, refl))))
gather-Outcome (c ∷ s) p d (e ∷ q) n ret h i =
    rw (against_lem p d (e ∷ q) n h i, gather)
      (Outcome-cons _ c d ret s _ (
        rw (sym (append_assoc p (d ∷ []) (e ∷ q))) (
          gather-Outcome s (p ++ d ∷ []) e q (n + 1) _ (rw (append_assoc p (d ∷ []) (e ∷ q)) h)
            (inl ground (arith, length-append p (d ∷ []))))))

-- On a second text that is not empty, the answer is true exactly when the first text is the second
-- one cut, or continued by its last character, to the length of the first.
timing_safe_strcmp_iff :
    (s t : Bytes)
    → t ≢ []
    → length t ≤ 2 ^ 64
    → (timing_safe_strcmp s t ≡ some true) ↔ (s ≡ pad (length s) t)
unfolding timing_safe_strcmp
timing_safe_strcmp_iff s [] ne h = absurd (ne refl)
timing_safe_strcmp_iff s (d ∷ q) ne h =
    let (r, e, f) = gather-Outcome s [] d q 0 0 h (inl refl) in
    ((λ w. (f.0 (ground arith)).1), (λ w. let z : r ≡ 0 = f.1 (refl, w) in ground arith))

pad_self : (t : Bytes) → pad (length t) t ≡ t
unfolding pad
pad_self [] = refl
pad_self (x ∷ []) = refl
pad_self (x ∷ y ∷ t) = ap (◌∷◌ x) (pad_self (y ∷ t))

pad_prefix : (p : Bytes) (d : ℕ) (q : Bytes) → pad (length p) (p ++ d ∷ q) ≡ p
unfolding pad
pad_prefix [] d q = refl
pad_prefix (x ∷ []) d q = refl
pad_prefix (x ∷ y ∷ p) d q = ap (◌∷◌ x) (pad_prefix (y ∷ p) d q)

-- Texts of one length are compared correctly: no read leaves the second text, and the answer is
-- true exactly when they are equal.
pub timing_safe_strcmp-same_length :
    (s t : Bytes)
    → length s ≡ length t
    → length t ≤ 2 ^ 64
    → (b : Bool) × (timing_safe_strcmp s t ≡ some b) × ((b ≡ true) ↔ (s ≡ t))
unfolding timing_safe_strcmp gather
timing_safe_strcmp-same_length [] [] e h = (true, refl, ((λ _. refl), (λ _. refl)))
timing_safe_strcmp-same_length [] (d ∷ q) e h = absurd (omega arith)
timing_safe_strcmp-same_length (c ∷ s) [] e h = absurd (omega arith)
timing_safe_strcmp-same_length (c ∷ s) (d ∷ q) e h =
    let (r, runs, f) = gather-Outcome (c ∷ s) [] d q 0 0 h (inl refl) in
    let p : pad (length (c ∷ s)) (d ∷ q) ≡ d ∷ q = rw e (pad_self (d ∷ q)) in
    (
      r == 0,
      ground arith,
      (
        (λ w. (f.0 (ground arith)).1 ∙ p),
        (λ w. let z : r ≡ 0 = f.1 (refl, w ∙ sym p) in ground arith),
      ),
    )

passes-prefix : (p q : Bytes) → length (p ++ q) ≤ 2 ^ 64 → timing_safe_strcmp p (p ++ q) ≡ some true
passes-prefix p [] h =
    let (b, e, f) = timing_safe_strcmp-same_length p p refl (rw (append-nil p) at h) in
    rw (append-nil p) (e ∙ ap some (f.1 refl))
passes-prefix p (d ∷ q) h =
    (timing_safe_strcmp_iff p (p ++ d ∷ q) (append-cons-ne-nil p d q) h).1 (sym (pad_prefix p d q))

pad_last : (x k : ℕ) → pad k (x ∷ []) ≡ replicate k x
unfolding pad
pad_last x zero = refl
pad_last x (suc k) = ap (◌∷◌ x) (pad_last x k)

pad_repeat :
    (p : Bytes) (x k : ℕ)
    → pad (length (p ++ x ∷ replicate k x)) (p ++ x ∷ []) ≡ p ++ x ∷ replicate k x
unfolding pad
pad_repeat [] x k = ap (◌∷◌ x) (rw (length-replicate k x) (pad_last x k))
pad_repeat (y ∷ []) x k = ap (◌∷◌ y) (pad_repeat [] x k)
pad_repeat (y ∷ z ∷ p) x k = ap (◌∷◌ y) (pad_repeat (z ∷ p) x k)

-- The lengths are never compared: every prefix of a text, the empty one included, passes for the
-- text, and so does the text with its last character repeated.
timing_safe_strcmp-prefix :
    (p q : Bytes) (x : ℕ) (k : ℕ)
    → length (p ++ q) ≤ 2 ^ 64
    → length (p ++ x ∷ []) ≤ 2 ^ 64
    → (timing_safe_strcmp p (p ++ q) ≡ some true)
      × (timing_safe_strcmp (p ++ x ∷ replicate k x) (p ++ x ∷ []) ≡ some true)
timing_safe_strcmp-prefix p q x k h h' = (
  passes-prefix p q h,
  (timing_safe_strcmp_iff _ (p ++ x ∷ []) (append-cons-ne-nil p x []) h').1
      (sym (pad_repeat p x k)),
)
