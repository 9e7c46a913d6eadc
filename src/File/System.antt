-- ===== src/File/System.antt =====
-- Calls of the system on files and paths: `CloseFile`, `Flush`, `KFlush`, `printf`, and the functions on
-- paths of src/File.cpp and include/File.h. `dirname`, `basename`, `realpath`, `getcwd` and `readlink`
-- enter by their answers.
use libjustasic.Base.{ℕ, List, [], ◌∷◌, ◌++◌, Option, none, some}
use libjustasic.Base.Text.{Bytes, c_str, codes}
use libjustasic.File.{File, putln}

-- The calls that a member makes.
pub data SystemCall : Type 0 where
  close_fd delete_file syncfs fsync : SystemCall

unfoldable pub close_file : List SystemCall
close_file = close_fd ∷ delete_file ∷ []

unfoldable pub flush : List SystemCall
flush = syncfs ∷ []

unfoldable pub kflush : List SystemCall
unfolding flush
kflush = flush ++ fsync ∷ []

-- `File::printf`
unfoldable pub printf :
    (Bytes → List Bytes → Bytes) → Option ℕ → Bytes → List Bytes → File → ℕ × File
printf fmt_format taken str args f = putln taken (fmt_format (c_str str) args) f

-- `GetCurrentDirectory` and `RealPath`; `none` is the exception of a text from the null pointer.
unfoldable pub get_current_directory : Option Bytes → Option Bytes
get_current_directory none = none
get_current_directory (some cwd) = some (c_str cwd ++ codes "/")

unfoldable pub real_path : (Bytes → Option Bytes) → Bytes → Option Bytes
real_path realpath str = elim (realpath (c_str str)) [ none ↦ none | some path ↦ some (c_str path) ]

unfoldable pub dirname : (Bytes → Bytes) → Bytes → Bytes
dirname posix_dirname [] = []
dirname posix_dirname (c ∷ str) = c_str (posix_dirname (c_str (c ∷ str)))

unfoldable pub basename : (Bytes → Bytes) → Bytes → Bytes
basename posix_basename [] = []
basename posix_basename (c ∷ str) = c_str (posix_basename (c_str (c ∷ str)))

-- `GetApplicationDirectory`; a failed `readlink` asks for a text of `SIZE_MAX` bytes, which throws.
unfoldable pub get_application_directory : (Bytes → Bytes) → Option Bytes → Option Bytes
unfolding dirname
get_application_directory posix_dirname none = none
get_application_directory posix_dirname (some link) = some (dirname posix_dirname link)
