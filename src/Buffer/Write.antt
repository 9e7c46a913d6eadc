-- ===== src/Buffer/Write.antt =====
-- What a write leaves in the buffer.
use libjustasic.Base.{
  ℕ, ◌+◌, ◌-◌, ◌%◌, ◌≡◌, ◌≤◌, ◌<◌, refl, Bool, true, false, List, ◌++◌, none, some, if◌then◌else◌,
  ltb, Bool-cases, inl, inr, max, length, take, drop, replicate, arith, length-append, length-take,
  length-drop, length-replicate, append_assoc, ap, sym, ◌∙◌, take-append,
}
use libjustasic.Base.Text.{Bytes}
use libjustasic.Buffer.{Data, word, regrow, append, write, allocate_ahead}

-- The size lies within the block.
pub record IsWell (d : Data) : Type 0 where
  pub block : length d.memory ≡ d.allocatedsz
  pub inside : d.size ≤ d.allocatedsz

-- The data that a reader sees.
abbrev pub contents : Data → Bytes
contents d = take d.size d.memory

take_exact : {A : Type 0} (n : ℕ) (xs ys : List A) → length xs ≡ n → take n (xs ++ ys) ≡ xs
take_exact n xs ys h = ap (λ k. take k (xs ++ ys)) (sym h) ∙ take-append xs ys

length_prefix : {A : Type 0} (n : ℕ) (xs : List A) → n ≤ length xs → length (take n xs) ≡ n
length_prefix n xs h = omega (arith, length-take n xs)

no_wrap : (n : ℕ) → n < word → n % word ≡ n
no_wrap n h = omega arith

regrow-IsWell :
    (d : Data) (newsz : ℕ)
    → IsWell d
    → d.size ≤ newsz
    → IsWell (regrow newsz d) × (contents (regrow newsz d) ≡ contents d)
unfolding regrow
regrow-IsWell d newsz w h =
    let n = length_prefix d.size d.memory (omega (arith, w.block, w.inside)) in
    (
      record {
        block = omega (
          arith,
          n,
          length-append (take d.size d.memory) (replicate (newsz - d.size) 0),
          length-replicate {A = ℕ} (newsz - d.size) 0,
        );
        inside = h;
      },
      take_exact d.size (take d.size d.memory) (replicate (newsz - d.size) 0) n,
    )

append-IsWell :
    (d : Data) (ddata : Bytes)
    → IsWell d
    → d.size + length ddata ≤ d.allocatedsz
    → d.size + length ddata < word
    → IsWell (append ddata d) × (contents (append ddata d) ≡ contents d ++ ddata)
unfolding append
append-IsWell d ddata w fits small =
    let n = length_prefix d.size d.memory (omega (arith, w.block, w.inside)) in
    let rest = drop (d.size + length ddata) d.memory in
    (
      record {
        block = omega (
          arith,
          n,
          w.block,
          length-append (take d.size d.memory) (ddata ++ rest),
          length-append ddata rest,
          length-drop (d.size + length ddata) d.memory,
        );
        inside = omega (arith, no_wrap (d.size + length ddata) small);
      },
      ap (λ k. take k (take d.size d.memory ++ (ddata ++ rest)))
            (no_wrap (d.size + length ddata) small)
          ∙ ap (take (d.size + length ddata)) (sym (append_assoc (take d.size d.memory) ddata rest))
          ∙ take_exact (d.size + length ddata) (take d.size d.memory ++ ddata) rest
              (omega (arith, n, length-append (take d.size d.memory) ddata)),
    )

module _ (d : Data) (ddata : Bytes) (w : IsWell d)
    (small : d.size + length ddata + 1024 < word) where
  abbrev target : ℕ
  target = max (d.size + length ddata) (d.size + 1024)

  -- The buffer that a write which grows the block leaves.
  abbrev grown : Data
  grown = append ddata (regrow target d)

  grown_lem : IsWell grown × (contents grown ≡ contents d ++ ddata)
  unfolding regrow
  grown_lem =
      let (r, same) = regrow-IsWell d target w (omega arith) in
      let (well, more) = append-IsWell (regrow target d) ddata r (omega arith) (omega arith) in
      (well, more ∙ ap (λ t. t ++ ddata) same)

  write_grows :
      (alloc : Bool)
      → ltb d.allocatedsz (d.size + length ddata) ≡ true
      → write alloc ddata d ≡ (if alloc then some grown else none)
  unfolding write
  write_grows alloc e =
      rw (no_wrap (d.size + length ddata) (omega arith), no_wrap (d.size + 1024) (omega arith), e)
        refl

  write_fits :
      (alloc : Bool)
      → ltb d.allocatedsz (d.size + length ddata) ≡ false
      → write alloc ddata d ≡ some (append ddata d)
  unfolding write
  write_fits alloc e = rw (no_wrap (d.size + length ddata) (omega arith), e) refl

  -- A write to a well-formed buffer appends its bytes to the contents and keeps the buffer
  -- well-formed, with the same number of owners, whether the block has to grow or not; only when it
  -- has to and `realloc` fails, `Write` throws. The sizes do not overflow.
  pub write-contents :
      (d' : Data) × (write true ddata d ≡ some d')
      × IsWell d'
      × (contents d' ≡ contents d ++ ddata)
      × (d'.refs ≡ d.refs)
      × (write false ddata d
          ≡ (if ltb d.allocatedsz (d.size + length ddata) then none else some d'))
  unfolding regrow append
  write-contents = elim (Bool-cases (ltb d.allocatedsz (d.size + length ddata))) [
    | inl e ↦
        let (well, more) = grown_lem in
        (grown, write_grows true e, well, more, refl, (rw e (write_grows false e)))
    | inr e ↦
        let (well, more) = append-IsWell d ddata w (ground (arith, e)) (omega arith) in
        (append ddata d, write_fits true e, well, more, refl, (rw e (write_fits false e)))
  ]

-- `AllocateAhead` keeps the contents and adds to the room for writes that need no `realloc`.
allocate_ahead-write :
    (d : Data) (sz : ℕ) (ddata : Bytes)
    → IsWell d
    → d.allocatedsz + sz + 1024 < word
    → d.size + length ddata ≤ d.allocatedsz + sz
    → (d' d'' : Data) × (allocate_ahead true sz d ≡ some d')
      × (contents d' ≡ contents d)
      × (write false ddata d' ≡ some d'')
      × (contents d'' ≡ contents d ++ ddata)
unfolding allocate_ahead regrow write
allocate_ahead-write d sz ddata w small fits =
    let e = no_wrap (d.allocatedsz + sz) (omega arith) in
    let (well, same) = regrow-IsWell d (d.allocatedsz + sz) w (omega (arith, w.inside)) in
    let ahead = regrow (d.allocatedsz + sz) d in
    let (_, more) = append-IsWell ahead ddata well fits (omega arith) in
    (
      ahead,
      append ddata ahead,
      rw e refl,
      same,
      write_fits ahead ddata well (omega arith) false (ground arith),
      more ∙ ap (λ t. t ++ ddata) same,
    )
