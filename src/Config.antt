-- ===== src/Config.antt =====
-- Configuration files: src/ConfigurationDriver.cpp and include/Config/ConfigurationDriver.h, with the
-- grammar of src/parser.yy. Floating values enter by their bits. Locations only go to the log.
pub mod Values
pub mod Grammar
pub mod Meaning
pub mod Reading
pub mod Scanner
pub mod RoundTrip
pub mod Written
mod Tests
use libjustasic.Base.{
  ℕ, Bool, true, false, not, ◌&&◌, List, [], ◌∷◌, Option, none, some, if◌then◌else◌, ℤ, pos,
}
use libjustasic.Base.Text.{Bytes, c_str}
use libjustasic.Base.Dict.{Dict, lookup, insert}

-- `ex_type` and `expression`.
pub data ExType : Type 0 where
  unknown integer string boolean floating : ExType

pub record Expression : Type 0 where
  pub ex_type : ExType
  pub string_ : Bytes
  pub number : ℤ
  pub floating_ : ℕ
  pub boolean_ : Bool

-- A value-initialised expression.
abbrev pub blank : Expression
blank = record { ex_type = unknown; string_ = []; number = pos 0; floating_ = 0; boolean_ = false }

-- What the parser changes of `ConfigurationDriver`.
pub record Driver : Type 0 where
  pub unsuccessful : Bool
  pub csect : Bytes
  pub values : Dict (Dict Expression)

-- What the constructor leaves; `none` when it throws, for a path that does not exist or is no regular
-- file.
unfoldable pub construct : Bool → Bool → Option Driver
construct exists is_regular =
    if exists
    then (if is_regular
        then some (record { unsuccessful = false; csect = []; values = [] })
        else none)
    else none

-- `error`, both overloads.
unfoldable pub error : Driver → Driver
error d = record d { unsuccessful = true }

unfoldable pub good : Driver → Bool
good d = not d.unsuccessful

-- `Section`, and `FindSection`: the key is read as a C string.
pub record Section : Type 0 where
  pub name : Bytes
  pub values : Dict Expression

abbrev pub section_of : Bytes → Option (Dict Expression) → Option Section
section_of key none = none
section_of key (some m) = some (record { name = key; values = m })

unfoldable pub find_section : Bytes → Driver → Option Section
find_section key d = section_of (c_str key) (lookup (c_str key) d.values)
