-- ===== src/Dynamic.antt =====
-- `DynamicLibrary` of include/DLLLoader.h and src/DLLLoader.cpp. The dynamic loader enters by its
-- answers; a handle is a number.
use libjustasic.Base.{ℕ, List, [], ◌∷◌, Option, none, some}
use libjustasic.Base.Text.{Bytes, c_str}

pub record DynamicLibrary : Type 0 where
  pub handle : Option ℕ
  pub name : Bytes

-- The constructor; `none` is the failed `assert` of an empty name.
unfoldable pub construct : (Bytes → Option ℕ) → Bytes → Option DynamicLibrary
construct dlopen [] = none
construct dlopen (c ∷ str) = some (record { handle = dlopen (c_str (c ∷ str)); name = c ∷ str })

-- `ResolveSymbol`: `none` is the null pointer. A library that failed to open asks the loader with the
-- null handle.
unfoldable pub resolve_symbol : (Option ℕ → Bytes → Option ℕ) → Bytes → DynamicLibrary → Option ℕ
resolve_symbol dlsym str l = dlsym l.handle (c_str str)

-- The copy that the compiler writes, and the destructor, with the handles that it closes.
unfoldable pub copy : DynamicLibrary → DynamicLibrary
copy l = l

abbrev pub closed_of : Option ℕ → List ℕ
closed_of none = []
closed_of (some h) = h ∷ []

unfoldable pub destruct : DynamicLibrary → List ℕ
destruct l = closed_of l.handle
