-- ===== src/Buffer.antt =====
-- `ManagedBuffer` of include/Utilities.h and src/Utilities.cpp: shared blocks with a count of their
-- owners. The blocks are the cells of a store; an object is the address in its field `data`.
pub mod Write
pub mod Counts
mod Tests
use libjustasic.Base.{
  ℕ, zero, suc, ◌+◌, ◌-◌, ◌%◌, ◌^◌, ◌≡◌, ◌≤◌, Bool, true, false, List, [], ◌∷◌, ◌++◌, Option, none,
  some, if◌then◌else◌, ltb, ◌==◌, max, length, get_elem?, set, take, drop, replicate,
}
use libjustasic.Base.Text.{Bytes}

-- `internaldata_t`; `memory` is the block that its `data` points at.
pub record Data : Type 0 where
  pub memory : Bytes
  pub size : ℕ
  pub allocatedsz : ℕ
  pub refs : ℕ

-- `size_t`
abbrev pub word : ℕ
word = 2 ^ 64

-- `realloc` and `memset` up to the new size, from `size` on.
pub regrow : ℕ → Data → Data
regrow newsz d = record d {
  memory = take d.size d.memory ++ replicate (newsz - d.size) 0;
  allocatedsz = newsz;
}

-- `memcpy` to the end of the data, and the new size.
pub append : Bytes → Data → Data
append ddata d = record d {
  memory = take d.size d.memory ++ (ddata ++ drop (d.size + length ddata) d.memory);
  size = (d.size + length ddata) % word;
}

-- `Write`; `none` is `std::bad_alloc`, when `realloc` fails.
pub write : Bool → Bytes → Data → Option Data
unfolding regrow append
write alloc ddata d =
    let needed = (d.size + length ddata) % word in
    if ltb d.allocatedsz needed
    then (if alloc
        then some (append ddata (regrow (max needed ((d.size + 1024) % word)) d))
        else none)
    else some (append ddata d)

pub allocate_ahead : Bool → ℕ → Data → Option Data
unfolding regrow
allocate_ahead alloc sz d = if alloc then some (regrow ((d.allocatedsz + sz) % word) d) else none

-- `length` and `size`; the end pointer, as an offset into the block.
pub size_of : Data → ℕ
size_of d = d.size

pub end_pointer : Data → ℕ
end_pointer d = d.size

-- `operator+=` and `operator=` on the size.
pub add_size : ℕ → Data → Data
add_size sz d = record d { size = (d.size + sz) % word }

pub set_size : ℕ → Data → Data
set_size sz d = record d { size = sz }

-- The store, and the `data` of each live object. A block that was freed leaves `none`.
pub record Store : Type 0 where
  pub cells : List (Option Data)
  pub objects : List ℕ

-- `this->data->refs++`, and `refs--` with the release at 0; `refs` is an `int`, here its 32 bits.
abbrev pub gain : Option Data → Option Data
gain none = none
gain (some d) = some (record d { refs = (d.refs + 1) % 2 ^ 32 })

abbrev pub release : Option Data → Option Data
release none = none
release (some d) =
    let left = (d.refs + (2 ^ 32 - 1)) % 2 ^ 32 in
    if left == 0 then none else some (record d { refs = left })

abbrev pub update : List (Option Data) → ℕ → (Option Data → Option Data) → List (Option Data)
update [] a f = []
update (c ∷ cells) zero f = f c ∷ cells
update (c ∷ cells) (suc a) f = c ∷ update cells a f

abbrev pub fresh : Data
fresh = record { memory = replicate 1024 0; size = 0; allocatedsz = 1024; refs = 1 }

-- A member that changes the data of a block, if the block lives; one that throws leaves it.
abbrev pub change : (Data → Option Data) → Option Data → Option Data
change f none = none
change f (some d) = elim (f d) [ none ↦ some d | some d' ↦ some d' ]

-- The default constructor.
pub construct : Store → Store
construct s = record { cells = s.cells ++ some fresh ∷ []; objects = length s.cells ∷ s.objects }

-- The copy constructor, from an object with the address `a`.
pub copy : ℕ → Store → Store
copy a s = record { cells = update s.cells a gain; objects = a ∷ s.objects }

-- `operator=` of the object `i` from one with the address `a`.
pub assign : ℕ → ℕ → Store → Store
assign i a s = record { cells = update s.cells a gain; objects = set s.objects i a }

abbrev pub without : List ℕ → ℕ → List ℕ
without [] i = []
without (a ∷ objects) zero = objects
without (a ∷ objects) (suc i) = a ∷ without objects i

-- The destructor of the object `i`, whose address is `a`.
pub destruct : ℕ → ℕ → Store → Store
destruct i a s = record { cells = update s.cells a release; objects = without s.objects i }
