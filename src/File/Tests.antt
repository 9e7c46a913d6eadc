-- ===== src/File/Tests.antt =====
-- Tests of the files, and their theorems at concrete files.
use libjustasic.Base.{
  ◌+◌, ◌-◌, ◌^◌, ◌/◌, ◌≡◌, refl, true, Option, inl, inr, ℕ, List, [], some, length, replicate,
  arith,
}
use libjustasic.Base.Text.{Bytes, codes, c_str}
use libjustasic.File.{
  File, new_file, fs_append, fs_seek_end, fs_seek_cur, lseek, o_append, open_flags, write,
  set_position, is_writable, appends, failure,
}
use libjustasic.File.Copy.{Written, copy_file, arrived, blocks, copy_file-arrived}
use libjustasic.File.Directory.{make_directory, Ascending, Occurs, make_directory-parents}

-- A file that is to be appended to is opened for reading only.
append_only : open_flags fs_append ≡ o_append
unfolding open_flags
append_only = refl

abbrev notes : File
notes = new_file (codes "notes") 1 (codes "hello")

-- Behind the last byte but one, and before the first one.
from_end : (set_position (2 ^ 64 - 2) fs_seek_end notes).1.position ≡ 3
unfolding set_position lseek
from_end = refl

before_start : set_position (2 ^ 64 - 1) fs_seek_cur notes ≡ (2 ^ 64 - 1, notes)
unfolding set_position lseek
before_start = refl

abbrev two : Option ℕ
two = some 2

-- Two of the bytes are taken, in front and where the mode appends; nothing is where it only appends.
two_in_front : (write (some 2) (codes "JEL") notes).1.content ≡ codes "JEllo"
unfolding write is_writable appends open_flags
two_in_front = refl

two_behind : (write (some 2) (codes "JEL") (record notes { modes = 3 })).1.content ≡ codes "helloJE"
unfolding write is_writable appends open_flags
two_behind = refl

not_opened :
    write (some 2) (codes "JEL") (record notes { modes = fs_append })
    ≡ (failure, record notes { modes = fs_append })
unfolding write is_writable appends open_flags
not_opened = refl

copy_file-arrived_example :
    (ws : List Written) × (copy_file
        (length (codes "abc") / 1024 + 1)
        true
        true
        (blocks (codes "abc"))
      ≡ some (true, ws))
    × (arrived ws ≡ codes "abc")
copy_file-arrived_example = copy_file-arrived (codes "abc")

abbrev large : Bytes
large = replicate 1024 65

make_directory-parents_example :
    (calls : List Bytes) × (make_directory (codes "runtime") ≡ some calls)
    × Ascending 1 calls
    × Occurs (codes "runtime") calls
unfolding c_str
make_directory-parents_example =
    make_directory-parents b'r' (codes "untime") (codes "untime") [] refl (omega arith) refl
      (inr refl)

-- The same for the parent of a path.
made_parent :
    (calls : List Bytes) × (make_directory (codes "a/b") ≡ some calls)
    × Ascending 1 calls
    × Occurs (codes "a") calls
unfolding c_str
made_parent =
    make_directory-parents b'a' (codes "/b") [] (codes "b") refl (omega arith) refl (inl refl)
