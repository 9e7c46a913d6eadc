-- ===== src/Buffer/Counts.antt =====
-- The counts of owners.
use libjustasic.Base.Text.{Bytes}
use libjustasic.Base.{
  ℕ, zero, suc, ◌+◌, ◌-◌, ◌^◌, ◌%◌, Option-cases, ◌≡◌, ◌≤◌, ◌<◌, refl, Bool, true, false, List, [],
  ◌∷◌, ◌++◌, Option, none, some, if◌then◌else◌, ltb, ◌==◌, Bool-cases, inl, inr, length, get_elem?,
  get_or, arith, ap, sym, ◌∙◌, ==_iff, subst,
}
use libjustasic.Buffer.{
  Data, Store, gain, release, update, fresh, construct, copy, without, destruct, change, write,
  regrow, append, allocate_ahead, add_size, set_size, word,
}

-- A block of the store, and how many owners it counts.
abbrev pub block : List (Option Data) → ℕ → Option Data
block cells a = get_or cells a none

abbrev pub refs_of : Option Data → ℕ
refs_of none = 0
refs_of (some d) = d.refs

abbrev pub is_live : Option Data → Bool
is_live none = false
is_live (some d) = true

-- The objects that own the block.
unfoldable pub owners : ℕ → List ℕ → ℕ
owners a [] = 0
owners a (b ∷ objects) = let n = owners a objects in if b == a then suc n else n

block-update :
    (f : Option Data → Option Data)
    → f none ≡ none
    → (cells : List (Option Data)) (a b : ℕ)
    → block (update cells a f) b ≡ (if a == b then f (block cells a) else block cells b)
block-update f e [] a b = elim (Bool-cases (a == b)) [ inl q ↦ rw q (sym e) | inr q ↦ rw q refl ]
block-update f e (c ∷ cells) zero zero = refl
block-update f e (c ∷ cells) zero (suc b) = ground arith
block-update f e (c ∷ cells) (suc a) zero = ground arith
block-update f e (c ∷ cells) (suc a) (suc b) = ground (arith, block-update f e cells a b)

block-append :
    (cells : List (Option Data)) (c : Option Data) (b : ℕ)
    → block (cells ++ c ∷ []) b ≡ (if length cells == b then c else block cells b)
block-append [] c zero = refl
block-append [] c (suc b) = ground arith
block-append (x ∷ cells) c zero = ground arith
block-append (x ∷ cells) c (suc b) = ground (arith, block-append cells c b)

block_beyond : (cells : List (Option Data)) (b : ℕ) → length cells ≤ b → block cells b ≡ none
block_beyond [] b h = refl
block_beyond (c ∷ cells) zero h = absurd (omega arith)
block_beyond (c ∷ cells) (suc b) h = block_beyond cells b (omega arith)

owners-without :
    (objects : List ℕ) (i a b : ℕ)
    → get_elem? objects i ≡ some a
    → owners b objects
      ≡ (if a == b then suc (owners b (without objects i)) else owners b (without objects i))
unfolding owners
owners-without [] i a b e = cc
owners-without (x ∷ objects) zero a b e = ground arith
owners-without (x ∷ objects) (suc i) a b e = ground (arith, owners-without objects i a b e)

-- What a program does with buffers, assignments left out: an object is made, copied and destroyed, and
-- its members `Write`, `AllocateAhead` and the operators on the size change its block or throw. A block
-- that has as many owners as an `int` counts is not copied, and `Write` and `AllocateAhead` are called
-- where the sizes do not overflow and the size that is set lies inside the block that they make.
pub data Step : Store → Store → Type 0 where
  constructed : (s : Store) → Step s (construct s)
  copied :
      (s : Store) (i a : ℕ)
      → get_elem? s.objects i ≡ some a
      → owners a s.objects < 2 ^ 31 - 1
      → Step s (copy a s)
  destroyed : (s : Store) (i a : ℕ) → get_elem? s.objects i ≡ some a → Step s (destruct i a s)
  written :
      (s : Store) (i a : ℕ) (alloc : Bool) (ddata : Bytes) (d : Data)
      → get_elem? s.objects i ≡ some a
      → block s.cells a ≡ some d
      → d.size + length ddata < word
      → Step s (record s { cells = update s.cells a (change (write alloc ddata)) })
  allocated_ahead :
      (s : Store) (i a : ℕ) (alloc : Bool) (sz : ℕ) (d : Data)
      → get_elem? s.objects i ≡ some a
      → block s.cells a ≡ some d
      → d.size ≤ d.allocatedsz + sz
      → d.allocatedsz + sz < word
      → Step s (record s { cells = update s.cells a (change (allocate_ahead alloc sz)) })
  size_added :
      (s : Store) (i a sz : ℕ)
      → get_elem? s.objects i ≡ some a
      → Step s (record s { cells = update s.cells a (change (λ d. some (add_size sz d))) })
  size_set :
      (s : Store) (i a sz : ℕ)
      → get_elem? s.objects i ≡ some a
      → Step s (record s { cells = update s.cells a (change (λ d. some (set_size sz d))) })

-- A block counts `n` owners, which an `int` holds, and lives exactly while there are some.
pub record Counts (c : Option Data) (n : ℕ) : Type 0 where
  pub count : refs_of c ≡ n
  pub live : is_live c ≡ ltb 0 n
  pub few : n < 2 ^ 31

gain-Counts :
    (c : Option Data) (n : ℕ) → 0 < n → n < 2 ^ 31 - 1 → Counts c n → Counts (gain c) (suc n)
gain-Counts none n h b w = absurd (omega (arith, w.count))
gain-Counts (some d) n h b w = record {
  count = omega (arith, w.count);
  live = ground arith;
  few = omega (arith, b);
}

release-Counts : (c : Option Data) (n : ℕ) → Counts c (suc n) → Counts (release c) n
release-Counts none n w = absurd (omega (arith, w.count))
release-Counts (some d) n w =
    let left : (d.refs + (2 ^ 32 - 1)) % 2 ^ 32 ≡ n = ground (arith, w.count, w.few) in
    let fewer : n < 2 ^ 31 = omega (arith, w.few) in
    rw left (elim (Bool-cases (n == 0)) [
      | inl e ↦ rw e (record { count = ground (arith, e); live = ground (arith, e); few = fewer })
      | inr e ↦ rw e (record { count = refl; live = ground (arith, e); few = fewer })
    ])

-- A member that keeps the count of a block.
abbrev Keeps : (Data → Option Data) → Type 0
Keeps f = (d d' : Data) → f d ≡ some d' → d'.refs ≡ d.refs

change-Counts :
    (f : Data → Option Data)
    → Keeps f
    → (c : Option Data) (n : ℕ) → Counts c n
    → Counts (change f c) n
change-Counts f k none n w = w
change-Counts f k (some d) n w = elim (Option-cases (f d)) [
  | inl e ↦ rw (e, change) w
  | inr (d', e) ↦ rw (e, change) (record { count = k d d' e ∙ w.count; live = w.live; few = w.few })
]

write-Keeps : (alloc : Bool) (ddata : Bytes) → Keeps (write alloc ddata)
unfolding write regrow append
write-Keeps alloc ddata d d' e = ground (arith, e)

allocate_ahead-Keeps : (alloc : Bool) (sz : ℕ) → Keeps (allocate_ahead alloc sz)
unfolding allocate_ahead regrow
allocate_ahead-Keeps alloc sz d d' e = ground (arith, e)

add_size-Keeps : (sz : ℕ) → Keeps (λ d. some (add_size sz d))
unfolding add_size
add_size-Keeps sz d d' e = ground (arith, e)

set_size-Keeps : (sz : ℕ) → Keeps (λ d. some (set_size sz d))
unfolding set_size
set_size-Keeps sz d d' e = ground (arith, e)

owned : (objects : List ℕ) (i a : ℕ) → get_elem? objects i ≡ some a → 0 < owners a objects
owned objects i a h = ground (arith, owners-without objects i a a h)

-- Every block of the store counts its owners.
abbrev pub IsCounted : Store → Type 0
IsCounted s = (b : ℕ) → Counts (block s.cells b) (owners b s.objects)

construct-IsCounted : (s : Store) → IsCounted s → IsCounted (construct s)
unfolding construct owners
construct-IsCounted s w b =
    rw (block-append s.cells (some fresh) b) (elim (Bool-cases (length s.cells == b)) [
      | inl e ↦ rw e (
          let no_owner : owners b s.objects ≡ 0 =
            sym (w b).count ∙ ap refs_of (block_beyond s.cells b (ground (arith, e))) in
          record {
            count = omega (arith, no_owner);
            live = ground (arith, no_owner);
            few = omega (arith, no_owner);
          })
      | inr e ↦ rw e (w b)
    ])

change-IsCounted :
    (f : Data → Option Data)
    → Keeps f
    → (s : Store) (a : ℕ) → IsCounted s
    → IsCounted (record s { cells = update s.cells a (change f) })
change-IsCounted f k s a w b =
    rw (block-update (change f) refl s.cells a b) (elim (Bool-cases (a == b)) [
      | inl e ↦ rw e (
          subst (λ x. Counts (change f (block s.cells a)) (owners x s.objects)) ((==_iff a b).0 e)
            (change-Counts f k _ _ (w a)))
      | inr e ↦ rw e (w b)
    ])

copy-IsCounted :
    (s : Store) (i a : ℕ)
    → get_elem? s.objects i ≡ some a
    → owners a s.objects < 2 ^ 31 - 1
    → IsCounted s
    → IsCounted (copy a s)
unfolding copy owners
copy-IsCounted s i a h few w b =
    rw (block-update gain refl s.cells a b) (elim (Bool-cases (a == b)) [
      | inl e ↦ rw e (
          subst (λ x. Counts (gain (block s.cells a)) (suc (owners x s.objects))) ((==_iff a b).0 e)
            (gain-Counts _ _ (owned s.objects i a h) few (w a)))
      | inr e ↦ rw e (w b)
    ])

destruct-IsCounted :
    (s : Store) (i a : ℕ)
    → get_elem? s.objects i ≡ some a
    → IsCounted s
    → IsCounted (destruct i a s)
unfolding destruct
destruct-IsCounted s i a h w b =
    rw (block-update release refl s.cells a b) (elim (Bool-cases (a == b)) [
      | inl e ↦ rw e (
          release-Counts (block s.cells a) (owners b (without s.objects i)) (
            subst (Counts (block s.cells a))
              (ap (λ x. owners x s.objects) ((==_iff a b).0 e)
                ∙ owners-without s.objects i a b h
                ∙ rw e refl)
              (w a)))
      | inr e ↦
          rw e
            (subst (Counts (block s.cells b)) (owners-without s.objects i a b h ∙ rw e refl) (w b))
    ])

-- The stores that a program without assignment of buffers reaches.
pub data Reach : Store → Type 0 where
  none_yet : Reach (record { cells = []; objects = [] })
  step : {s t : Store} → Reach s → Step s t → Reach t

-- In a program without assignments of buffers, every block counts its owners in an `int` that does not
-- overflow, and it lives exactly while it has some: it is freed when the last of them is destroyed,
-- whatever was written to it, allocated for it or set as its size on the way. The conditions are
-- that no block with `2 ^ 31 - 1` owners is copied, and that `Write` and `AllocateAhead` are called
-- where the sizes do not overflow and the size lies inside the block that they make.
pub Reach-IsCounted : {s : Store} → Reach s → IsCounted s
unfolding owners
Reach-IsCounted none_yet = λ b. record { count = refl; live = refl; few = omega arith }
Reach-IsCounted (step r (constructed s)) = construct-IsCounted s (Reach-IsCounted r)
Reach-IsCounted (step r (copied s i a h few)) = copy-IsCounted s i a h few (Reach-IsCounted r)
Reach-IsCounted (step r (destroyed s i a h)) = destruct-IsCounted s i a h (Reach-IsCounted r)
Reach-IsCounted (step r (written s i a alloc ddata d h e room)) =
    change-IsCounted (write alloc ddata) (write-Keeps alloc ddata) s a (Reach-IsCounted r)
Reach-IsCounted (step r (allocated_ahead s i a alloc sz d h e inside room)) =
    change-IsCounted (allocate_ahead alloc sz) (allocate_ahead-Keeps alloc sz) s a
      (Reach-IsCounted r)
Reach-IsCounted (step r (size_added s i a sz h)) =
    change-IsCounted _ (add_size-Keeps sz) s a (Reach-IsCounted r)
Reach-IsCounted (step r (size_set s i a sz h)) =
    change-IsCounted _ (set_size-Keeps sz) s a (Reach-IsCounted r)
