-- ===== src/Exceptions.antt =====
-- The exceptions of include/Exceptions.h. `fmt::format` is a parameter.
use libjustasic.Base.{List, [], ◌∷◌}
use libjustasic.Base.Text.{Bytes, c_str, codes}

-- An exception of each class; `extra` is the query or the module, where the class has one.
pub record Exception : Type 0 where
  pub message : Bytes
  pub extra : Bytes

unfoldable pub what : Exception → Bytes
what e = c_str e.message

module _ (fmt_format : Bytes → List Bytes → Bytes) where
  -- The overload with arguments formats them; the one without takes the text as it is.
  unfoldable pub basic_exception : Bytes → List Bytes → Bytes
  basic_exception message [] = message
  basic_exception message (a ∷ args) = fmt_format message (a ∷ args)

  unfoldable pub sql_exception : Bytes → List Bytes → Exception
  sql_exception mstr [] = record { message = mstr; extra = [] }
  sql_exception mstr (query ∷ args) = record { message = basic_exception mstr args; extra = query }

  unfoldable pub module_exception : Bytes → List Bytes → Exception
  module_exception mstr [] = record { message = mstr; extra = codes "unknown" }
  module_exception mstr (module_ ∷ args) = record {
    message = basic_exception mstr args;
    extra = module_;
  }

  -- `SocketException` and `DNSException` have the same constructors.
  unfoldable pub socket_exception : Bytes → List Bytes → Exception
  unfolding basic_exception
  socket_exception message args = record { message = basic_exception message args; extra = [] }

  unfoldable pub dns_exception : Bytes → List Bytes → Exception
  unfolding basic_exception
  dns_exception message args = record { message = basic_exception message args; extra = [] }

-- `Query` and `Module`.
unfoldable pub query : Exception → Bytes
query e = c_str e.extra

unfoldable pub module_of : Exception → Bytes
module_of e = c_str e.extra
