-- ===== src/File.antt =====
-- Files and the file system: src/File.cpp and include/File.h. A descriptor of a regular file is the
-- content and the position; other calls of the system enter by their answers.
pub mod Copy
pub mod Position
pub mod Directory
pub mod System
mod Tests
use libjustasic.Base.{
  ℕ, zero, suc, ◌+◌, ◌-◌, ◌/◌, ◌^◌, ◌≡◌, refl, Bool, true, false, ◌&&◌, not, List, [], ◌∷◌, ◌++◌,
  Option, none, some, if◌then◌else◌, ltb, ◌==◌, bit_or, bit_and, length, get_elem?, get_or, take,
  drop, replicate, set,
}
use libjustasic.Base.Text.{Bytes, codes}
use libjustasic.Cstr.{memrev}

-- `fsMode_t`: the values are 0, 1 and 2, and the code tests them as bits.
abbrev pub fs_read : ℕ
fs_read = 0

abbrev pub fs_write : ℕ
fs_write = 1

abbrev pub fs_append : ℕ
fs_append = 2

pub data FsOrigin : Type 0 where
  fs_seek_cur fs_seek_end fs_seek_set : FsOrigin

-- `len` is the cached length, 0 while there is none.
pub record File : Type 0 where
  pub content : Bytes
  pub position : ℕ
  pub len : ℕ
  pub modes : ℕ
  pub path : Bytes

-- `Read` of a regular file, which gives what is there; a read that fails is left out.
pub read : ℕ → File → Bytes × File
read n f =
    let data_ = take n (drop f.position f.content) in
    (data_, record f { position = f.position + length data_ })

-- The content with the bytes at a position; a gap before it is filled with zeros.
abbrev pub stored : Bytes → ℕ → Bytes → Bytes
stored data_ pos content =
    (take pos content ++ replicate (pos - length content) 0)
    ++ (data_ ++ drop (pos + length data_) content)

-- The flags of Linux.
abbrev pub o_rdonly : ℕ
o_rdonly = 0

abbrev pub o_wronly : ℕ
o_wronly = 1

abbrev pub o_rdwr : ℕ
o_rdwr = 2

abbrev pub o_creat : ℕ
o_creat = 64

abbrev pub o_append : ℕ
o_append = 1024

pub open_flags : ℕ → ℕ
open_flags mode =
    let access =
      if not (bit_and mode (bit_or fs_read fs_write) == 0)
      then o_rdwr
      else if not (bit_and mode fs_read == 0) && bit_and mode fs_write == 0
      then o_rdonly
      else if not (bit_and mode fs_write == 0) && bit_and mode fs_read == 0
      then o_wronly
      else 0 in
    if not (bit_and mode fs_append == 0) then bit_or access o_append else access

-- The descriptor of a file that was opened with such a mode takes writes, and appends them.
pub is_writable : ℕ → Bool
unfolding open_flags
is_writable modes = not (bit_and (open_flags modes) 3 == o_rdonly)

pub appends : ℕ → Bool
unfolding open_flags
appends modes = not (bit_and (open_flags modes) o_append == 0)

-- Where a write goes.
abbrev pub target : File → ℕ
target f = if appends f.modes then length f.content else f.position

-- `size_t` of the answer -1
abbrev pub failure : ℕ
failure = 2 ^ 64 - 1

-- `Write`: what the member answers, and the file. `taken` is what the system does with the bytes that it
-- is given: it takes as many of them, which may be fewer than all, or fails.
pub write : Option ℕ → Bytes → File → ℕ × File
write taken data_ f =
    if is_writable f.modes
    then (elim taken [
      | none ↦ (failure, f)
      | some k ↦ (
        length (take k data_),
        record f {
          content = stored (take k data_) (target f) f.content;
          position = target f + length (take k data_);
        },
      )
    ])
    else (failure, f)

-- `Putln` writes the text, and no end of line.
pub putln : Option ℕ → Bytes → File → ℕ × File
unfolding write
putln taken str f = write taken str f

-- `Length`, with the file that it leaves.
pub file_length : File → ℕ × File
file_length f =
    if f.len == 0 then (length f.content, record f { len = length f.content }) else (f.len, f)

pub get_position : File → ℕ
get_position f = f.position

-- `lseek` from a base by an offset, which it reads as a signed number: where this leads before the
-- beginning, it answers -1 and nothing moves.
pub lseek : ℕ → ℕ → File → ℕ × File
lseek base offset f =
    let back = 2 ^ 64 - offset in
    if ltb offset (2 ^ 63)
    then (base + offset, record f { position = base + offset })
    else if ltb base back
    then (2 ^ 64 - 1, f)
    else (base - back, record f { position = base - back })

-- `SetPosition`: the case `FS_SEEK_SET` and the default both leave `SEEK_SET`.
pub set_position : ℕ → FsOrigin → File → ℕ × File
unfolding lseek
set_position offset fs_seek_cur f = lseek f.position offset f
set_position offset fs_seek_end f = lseek (length f.content) offset f
set_position offset fs_seek_set f = lseek 0 offset f

-- The typed `Write` and `Read`: the bytes of the value in memory, reversed on a big-endian machine.
pub write_value : Bool → Option ℕ → Bytes → File → ℕ × File
unfolding write
write_value bigendian taken t f = write taken (if bigendian then memrev t else t) f

pub read_value : Bool → ℕ → File → Bytes × File
unfolding read
read_value bigendian size f =
    let (tmp, f') = read size f in (if bigendian then memrev tmp else tmp, f')

-- `GetFILE`: the mode for `fdopen`.
pub get_file_flags : ℕ → Bytes
get_file_flags modes =
    let flags =
      if not (bit_and modes (bit_or fs_read fs_write) == 0)
      then codes "rw"
      else if not (bit_and modes fs_read == 0) && bit_and modes fs_write == 0
      then codes "r"
      else if not (bit_and modes fs_write == 0) && bit_and modes fs_read == 0
      then codes "w"
      else [] in
    if not (bit_and modes fs_append == 0) then codes "a" else flags

-- The answers of `open`: the content of the file, `ENOENT`, or another error.
pub data Open : Type 0 where
  opened : Bytes → Open
  no_entry failed : Open

abbrev pub new_file : Bytes → ℕ → Bytes → File
new_file path mode content = record {
  content = content;
  position = 0;
  len = 0;
  modes = mode;
  path = path;
}

-- `FileSystem::OpenFile` over the answers of `open` to a path and flags.
pub open_file : (Bytes → ℕ → Open) → Bytes → ℕ → Option File
unfolding open_flags
open_file open_ path mode = elim (open_ path (open_flags mode)) [
  | opened c ↦ some (new_file path mode c)
  | failed ↦ none
  | no_entry ↦ elim (open_ path (bit_or (open_flags mode) o_creat)) [
    | opened c ↦ some (new_file path mode c)
    | no_entry ↦ none
    | failed ↦ none
  ]
]

-- `charset` and `random_string`, over the numbers drawn.
pub charset : Bytes
charset = codes "0123456789ABCDEFGHIJKLMNOPQRSTUVWXYZabcdefghijklmnopqrstuvwxyz"

pub random_string : List ℕ → Bytes
random_string [] = []
random_string (n ∷ draws) = get_or charset n 0 ∷ random_string draws

pub open_temporary_file : (Bytes → ℕ → Open) → List ℕ → Bytes → Option File
unfolding open_file random_string
open_temporary_file open_ draws templatepath =
    open_file open_ (templatepath ++ (codes "." ++ random_string draws)) (bit_or fs_read fs_write)

-- `GetHighestSize`: the unit's index and what is left of the size.
pub highest_loop : ℕ → ℕ → ℕ → Option (ℕ × ℕ)
highest_loop zero size si = none
highest_loop (suc fuel) size si =
    let rest = highest_loop fuel (size / 1024) (si + 1) in
    if ltb 1024 size then rest else some (si, size)

abbrev pub sizes : List Bytes
sizes =
    codes "B"
    ∷ codes "KB"
    ∷ codes "MB"
    ∷ codes "GB"
    ∷ codes "TB"
    ∷ codes "PB"
    ∷ codes "EB"
    ∷ codes "ZB"
    ∷ codes "YB"
    ∷ []

-- `none` is a read past the end of `sizes`. The loop has ended after seven rounds.
pub get_highest_size : ℕ → Option (Bytes × ℕ)
get_highest_size size = elim (highest_loop 7 size 0) [
  | none ↦ none
  | some (si, rest) ↦
      if ltb 72 si
      then some (codes "(hello future!)", rest)
      else (elim (get_elem? sizes si) [ none ↦ none | some unit ↦ some (unit, rest) ])
]
