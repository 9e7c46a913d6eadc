-- ===== src/Buffer/Tests.antt =====
-- Tests of the buffer, and its theorems at concrete buffers.
use libjustasic.Base.{
  ◌+◌, ◌≡◌, refl, true, false, [], ◌∷◌, ◌++◌, none, some, if◌then◌else◌, ltb, arith,
}
use libjustasic.Buffer.{Data, Store, construct, copy, write, append, update, change, fresh}
use libjustasic.Buffer.Write.{IsWell, contents, write-contents}
use libjustasic.Buffer.Counts.{
  Counts, block, owners, Reach, none_yet, step, constructed, copied, written, Reach-IsCounted,
}

-- A block of four bytes.
abbrev small : Data
small = record { memory = 1 ∷ 2 ∷ 3 ∷ 0 ∷ []; size = 3; allocatedsz = 4; refs = 1 }

fits :
    write false (9 ∷ []) small
    ≡ some (record { memory = 1 ∷ 2 ∷ 3 ∷ 9 ∷ []; size = 4; allocatedsz = 4; refs = 1 })
unfolding write append
fits = refl

write-contents_example :
    (d' : Data) × (write true (8 ∷ 9 ∷ []) small ≡ some d')
    × IsWell d'
    × (contents d' ≡ contents small ++ 8 ∷ 9 ∷ [])
    × (d'.refs ≡ small.refs)
    × (write false (8 ∷ 9 ∷ []) small
        ≡ (if ltb small.allocatedsz (small.size + 2) then none else some d'))
write-contents_example =
    write-contents small (8 ∷ 9 ∷ []) (record { block = refl; inside = omega arith }) (omega arith)

abbrev empty : Store
empty = record { cells = []; objects = [] }

-- Two buffers, the second one of them with two owners.
two_buffers : Reach (copy 1 (construct (construct empty)))
unfolding construct owners
two_buffers =
    step (step (step none_yet (constructed empty)) (constructed (construct empty)))
      (copied (construct (construct empty)) 0 1 refl (omega arith))

-- A byte is written to the block of two owners.
abbrev written_to : Store
written_to = record (copy 1 (construct (construct empty))) {
  cells = update (copy 1 (construct (construct empty))).cells 1 (change (write true (9 ∷ [])));
}

one_byte : Reach written_to
unfolding construct copy
one_byte = step two_buffers (
    written (copy 1 (construct (construct empty))) 0 1 true (9 ∷ []) (record fresh { refs = 2 })
      refl refl (omega arith))

Reach-IsCounted_example : Counts (block written_to.cells 1) (owners 1 written_to.objects)
Reach-IsCounted_example = Reach-IsCounted one_byte 1
