-- ===== src/Ci/Map/Contents.antt =====
-- The contents of an `insensitive_map`, as a function from its keys.
use libjustasic.Base.{
  ◌≡◌, refl, true, [], ◌∷◌, Option, none, some, if◌then◌else◌, inl, inr, arith, sym, ◌∙◌, All-map,
}
use libjustasic.Base.Text.{Bytes}
use libjustasic.Ci.{less, equals_ci}
use libjustasic.Ci.Laws.{folded, less_trans}
use libjustasic.Ci.Map.{InsensitiveMap, at_key, put_at, erase_key, Behind, IsSorted}
use libjustasic.Ci.Map.Keys.{same_less, above, below, same, compared}

module _ {ℓ} {V : Type ℓ} where
  -- What lies behind a key lies behind every key below it.
  Behind-less : (j k : Bytes) (m : InsensitiveMap V) → less j k ≡ true → Behind k m → Behind j m
  Behind-less j k m h b =
      All-map (λ e. less k e.0 ≡ true) (λ e. less j e.0 ≡ true) (λ e. less_trans j k e.0 h) m b

  Behind-folded :
      (i j : Bytes) (m : InsensitiveMap V) → folded i ≡ folded j → Behind i m → Behind j m
  Behind-folded i j m e b =
      All-map (λ p. less i p.0 ≡ true) (λ p. less j p.0 ≡ true)
        (λ p h. sym (same_less i j p.0 e).0 ∙ h) m b

  at_key-Behind : (j : Bytes) (m : InsensitiveMap V) → Behind j m → at_key j m ≡ none
  unfolding at_key
  at_key-Behind j [] b = refl
  at_key-Behind j ((i, w) ∷ m) b = let (h, g, e, e') = below j i b.0 in rw (g, h) refl

  Behind-put_at :
      (i k : Bytes) (v : V) (m : InsensitiveMap V)
      → less i k ≡ true
      → Behind i m
      → Behind i (put_at k v m)
  unfolding put_at
  Behind-put_at i k v [] h b = (h, tt)
  Behind-put_at i k v ((j, w) ∷ m) h b = elim (compared j k) [
    | inl (p, q, n, o) ↦ rw p (b.0, Behind-put_at i k v m h b.1)
    | inr (inl (e, q, l, r)) ↦ rw (l, r) b
    | inr (inr (p, q, n, o)) ↦ rw (p, q) (h, b)
  ]

  IsSorted-put_at :
      (k : Bytes) (v : V) (m : InsensitiveMap V) → IsSorted m → IsSorted (put_at k v m)
  unfolding IsSorted put_at
  IsSorted-put_at k v [] s = (tt, tt)
  IsSorted-put_at k v ((j, w) ∷ m) s = elim (compared j k) [
    | inl (p, q, n, o) ↦ rw p (Behind-put_at j k v m p s.0, IsSorted-put_at k v m s.1)
    | inr (inl (e, q, l, r)) ↦ rw (l, r) s
    | inr (inr (p, q, n, o)) ↦ rw (p, q) ((p, Behind-less k j m p s.0), s)
  ]

  -- An entry before `k` is passed on the way to `k`.
  passed :
      (i k j : Bytes) (w : V) (m : InsensitiveMap V) (a rest : Option V)
      → less i k ≡ true
      → rest ≡ (if equals_ci k j then a else at_key j m)
      → (if less i j then rest else if less j i then none else some w)
        ≡ (if equals_ci k j then a else at_key j ((i, w) ∷ m))
  unfolding at_key
  passed i k j w m a rest p h = elim (compared k j) [
    | inl (f, x, y, z) ↦ rw (h, y) refl
    | inr (inl (e, f, x, y)) ↦ rw (h, f, sym (same_less k j i e).1 ∙ p) refl
    | inr (inr (f, x, y, z)) ↦ rw (h, z) refl
  ]

  at_key-put_at :
      (k j : Bytes) (v : V) (m : InsensitiveMap V)
      → IsSorted m
      → at_key j (put_at k v m) ≡ (if equals_ci k j then some v else at_key j m)
  unfolding IsSorted put_at at_key
  at_key-put_at k j v [] s = elim (compared k j) [
    | inl (p, q, r, t) ↦ rw (p, r) refl
    | inr (inl (e, q, l, r)) ↦ rw (q, l, r) refl
    | inr (inr (p, q, r, t)) ↦ rw (p, q, t) refl
  ]
  at_key-put_at k j v ((i, w) ∷ m) s =
      let rest = at_key-put_at k j v m s.1 in
      elim (compared i k) [
        | inl (p, q, n, o) ↦ rw p (passed i k j w m _ _ p rest)
        | inr (inl (e, q, l, r)) ↦
            let (h, g) = same_less i k j e in
            elim (compared k j) [
              | inl (f, x, y, z) ↦ rw (l, r, h ∙ f, y) refl
              | inr (inl (x, f, y, z)) ↦ rw (l, r, h ∙ y, g ∙ z, f) refl
              | inr (inr (f, x, y, z)) ↦ rw (l, r, h ∙ x, g ∙ f, z) refl
            ]
        | inr (inr (p, q, n, o)) ↦ elim (compared k j) [
          | inl (f, x, y, z) ↦ rw (p, q, f, y) refl
          | inr (inl (x, f, y, z)) ↦ rw (p, q, y, z, f) refl
          | inr (inr (f, x, y, z)) ↦
              let h = less_trans j k i f p in rw (p, q, x, f, z, above j i h, h) refl
        ]
      ]

  Behind-erase_key : (i k : Bytes) (m : InsensitiveMap V) → Behind i m → Behind i (erase_key k m)
  unfolding erase_key
  Behind-erase_key i k [] b = tt
  Behind-erase_key i k ((j, w) ∷ m) b = elim (compared j k) [
    | inl (p, q, n, o) ↦ rw p (b.0, Behind-erase_key i k m b.1)
    | inr (inl (e, q, l, r)) ↦ rw (l, r) b.1
    | inr (inr (p, q, n, o)) ↦ rw (p, q) b
  ]

  IsSorted-erase_key : (k : Bytes) (m : InsensitiveMap V) → IsSorted m → IsSorted (erase_key k m)
  unfolding IsSorted erase_key
  IsSorted-erase_key k [] s = tt
  IsSorted-erase_key k ((j, w) ∷ m) s = elim (compared j k) [
    | inl (p, q, n, o) ↦ rw p (Behind-erase_key j k m s.0, IsSorted-erase_key k m s.1)
    | inr (inl (e, q, l, r)) ↦ rw (l, r) s.1
    | inr (inr (p, q, n, o)) ↦ rw (p, q) s
  ]

  at_key-erase_key :
      (k j : Bytes) (m : InsensitiveMap V)
      → IsSorted m
      → at_key j (erase_key k m) ≡ (if equals_ci k j then none else at_key j m)
  unfolding IsSorted erase_key at_key
  at_key-erase_key k j [] s = ground arith
  at_key-erase_key k j ((i, w) ∷ m) s =
      let rest = at_key-erase_key k j m s.1 in
      elim (compared i k) [
        | inl (p, q, n, o) ↦ rw p (passed i k j w m _ _ p rest)
        | inr (inl (e, q, l, r)) ↦
            let (h, g) = same_less i k j e in
            elim (compared k j) [
              | inl (f, x, y, z) ↦ rw (l, r, h ∙ f, y) refl
              | inr (inl (x, f, y, z)) ↦
                  rw (l, r, f) (at_key-Behind j m (Behind-folded i j m (e ∙ x) s.0))
              | inr (inr (f, x, y, z)) ↦
                  rw (l, r, h ∙ x, g ∙ f, z) (at_key-Behind j m (Behind-less j i m (g ∙ f) s.0))
            ]
        | inr (inr (p, q, n, o)) ↦ elim (compared k j) [
          | inl (f, x, y, z) ↦ rw (p, q, y) refl
          | inr (inl (x, f, y, z)) ↦
              (let h = sym (same_less k j i x).0 ∙ p in rw (p, q, f, above j i h, h) refl)
          | inr (inr (f, x, y, z)) ↦ rw (p, q, z) refl
        ]
      ]

  at_key-same : (i j : Bytes) (m : InsensitiveMap V) → folded i ≡ folded j → at_key i m ≡ at_key j m
  unfolding at_key
  at_key-same i j [] e = refl
  at_key-same i j ((k, w) ∷ m) e =
      rw ((same_less i j k e).0, (same_less i j k e).1, at_key-same i j m e) refl

  -- An `insensitive_map` is a function from its keys, that is from the texts up to `equals_ci`: an
  -- assignment changes it at its key only, `erase` makes it empty there, and both keep the keys in a
  -- strict order.
  pub insensitive_map_lem :
      (k : Bytes) (v : V) (m : InsensitiveMap V)
      → IsSorted m
      → IsSorted (put_at k v m)
        × IsSorted (erase_key k m)
        × ((j : Bytes)
            → (at_key j (put_at k v m) ≡ (if equals_ci k j then some v else at_key j m))
              × (at_key j (erase_key k m) ≡ (if equals_ci k j then none else at_key j m)))
        × ((i j : Bytes) → equals_ci i j ≡ true → at_key i m ≡ at_key j m)
  insensitive_map_lem k v m s = (
    IsSorted-put_at k v m s,
    IsSorted-erase_key k m s,
    λ j. (at_key-put_at k j v m s, at_key-erase_key k j m s),
    λ i j e. at_key-same i j m (same i j e).0,
  )
