-- ===== src/File/Position.antt =====
-- Positions, lengths and round trips.
use libjustasic.Base.{
  ℕ, suc, ◌+◌, ◌-◌, ◌≡◌, ◌≢◌, ◌<◌, refl, true, false, [], ◌∷◌, ◌++◌, ◌==◌, length, take, replicate,
  arith, ap, ◌∙◌, ne→==, get_or, Option, none, some, min,
}
use libjustasic.Base.Text.{Bytes}
use libjustasic.Cstr.{memrev}
use libjustasic.Cstr.Reversal.{memrev_lem, length-memrev}
use libjustasic.File.{
  File, fs_seek_set, stored, target, read, write, file_length, set_position, write_value,
}

abbrev before : ℕ → Bytes → Bytes
before pos content = take pos content ++ replicate (pos - length content) 0

abbrev accepted : Bytes → File → ℕ × File
accepted part f = (
  length part,
  record f { content = stored part (target f) f.content; position = target f + length part },
)

-- How many bytes are taken, that they are read back from where the write went, and that what stood
-- before stays, behind which a gap is zeros.
abbrev pub IsStored : ℕ → Bytes → File → ℕ × File → Type 0
IsStored k data_ f r =
    (r.0 ≡ min k (length data_))
    × ((read r.0 (set_position (target f) fs_seek_set r.1).1).0 ≡ take k data_)
    × (take (target f) r.1.content
        ≡ take (target f) f.content ++ replicate (target f - length f.content) 0)

-- A write leaves the cached length.
write-len : (taken : Option ℕ) (data_ : Bytes) (f : File) → (write taken data_ f).1.len ≡ f.len
unfolding write
write-len none data_ f = ground arith
write-len (some k) data_ f = ground arith

-- `Length` gives the length of the content while none is cached, and keeps the position; a length
-- that was cached is given again after a write, however much longer the file has become.
file_length-stale :
    (taken : Option ℕ) (f : File) (data_ : Bytes)
    → f.len ≡ 0
    → length f.content ≢ 0
    → ((file_length f).0 ≡ length f.content)
      × ((file_length f).1.position ≡ f.position)
      × ((file_length (write taken data_ (file_length f).1).1).0 ≡ length f.content)
unfolding file_length
file_length-stale taken f data_ none_yet some_bytes =
    let first : (f.len == 0) ≡ true = ground arith in
    let second = ne→== (length f.content) 0 some_bytes in
    (
      rw first refl,
      rw first refl,
      rw first (rw (write-len taken data_ (record f { len = length f.content })) (rw second refl)),
    )

-- Texts with the same bytes are equal.
same_bytes :
    (s t : Bytes)
    → length s ≡ length t
    → ((i : ℕ) → i < length s → get_or s i 0 ≡ get_or t i 0)
    → s ≡ t
same_bytes [] [] l h = refl
same_bytes [] (d ∷ t) l h = absurd (omega arith)
same_bytes (c ∷ s) [] l h = absurd (omega arith)
same_bytes (c ∷ s) (d ∷ t) l h =
    let rest = same_bytes s t (omega arith) (λ i b. h (suc i) (omega arith)) in
    let first = h 0 (omega arith) in cc

memrev_twice : (s : Bytes) → memrev (memrev s) ≡ s
memrev_twice s =
    let once = length-memrev s in
    let twice = length-memrev (memrev s) in
    same_bytes (memrev (memrev s)) s (twice ∙ once) (λ i b.
      (memrev_lem (memrev s) i (omega arith)).1
      ∙ (memrev_lem s (length (memrev s) - 1 - i) (omega arith)).1
      ∙ ap (λ k. get_or s k 0) (omega arith))

-- A value that a big-endian machine writes is stored as a little-endian machine stores it.
write_value-bytes :
    (taken : Option ℕ) (f : File) (t : Bytes)
    → write_value true taken (memrev t) f ≡ write_value false taken t f
unfolding write_value
write_value-bytes taken f t = ap (λ b. write taken b f) (memrev_twice t)
