-- ===== src/Modules/About.antt =====
-- What a module says of itself: the fields of `Module` that the loader does not read, and the setters
-- of src/Module.cpp.
use libjustasic.Base.{Bool, []}
use libjustasic.Base.Text.{Bytes}
use libjustasic.Modules.{Module}

pub data ModType : Type 0 where
  mod_undefined mod_encryption mod_protocol mod_socketengine mod_database mod_normal : ModType

pub record About : Type 0 where
  pub author : Bytes
  pub version : Bytes
  pub description : Bytes
  pub type : ModType

-- What the constructor leaves.
unfoldable pub about : ModType → About
about m = record { author = []; version = []; description = []; type = m }

unfoldable pub set_author : Bytes → About → About
set_author person a = record a { author = person }

unfoldable pub set_version : Bytes → About → About
set_version ver a = record a { version = ver }

unfoldable pub set_permanent : Bool → Module → Module
set_permanent state m = record m { permanent = state }

unfoldable pub set_description : Bytes → About → About
set_description desc a = record a { description = desc }
