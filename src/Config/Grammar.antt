-- ===== src/Config/Grammar.antt =====
-- The grammar of src/parser.yy as the states of its parser, with its actions. An action that needs no
-- next token runs before one is read.
use libjustasic.Base.{ℕ, Bool, List, [], ◌∷◌, Option, none, some, ℤ}
use libjustasic.Base.Text.{Bytes}
use libjustasic.Base.Dict.{Dict, lookup, insert}
use libjustasic.Config.{integer, string, boolean, floating, Expression, blank, Driver, error}

pub data Token : Type 0 where
  cint : ℤ → Token
  str identifier : Bytes → Token
  bool : Bool → Token
  float : ℕ → Token
  open_brace close_brace semicolon equals_sign : Token

-- `item_type`
abbrev pub item_type : Token → Option Expression
item_type (cint n) = some (record blank { number = n; ex_type = integer })
item_type (str s) = some (record blank { string_ = s; ex_type = string })
item_type (bool b) = some (record blank { boolean_ = b; ex_type = boolean })
item_type (float x) = some (record blank { floating_ = x; ex_type = floating })
item_type (identifier s) = none
item_type open_brace = none
item_type close_brace = none
item_type semicolon = none
item_type equals_sign = none

-- Where the parser stands: between sections; behind a section's name; between its items; behind an
-- item's name, its `=`, its value; after a syntax error.
pub data State : Type 0 where
  top named items failed : State
  keyed assigned : Bytes → State
  valued : Bytes → Expression → State

-- `ctx->values[ctx->csect]`
abbrev pub section_or_empty : Option (Dict Expression) → Dict Expression
section_or_empty none = []
section_or_empty (some m) = m

abbrev pub touch : Bytes → Dict (Dict Expression) → Dict (Dict Expression)
touch s values = insert s (section_or_empty (lookup s values)) values

-- The actions of `conf_item` and `section_item`.
unfoldable pub enter : Bytes → Driver → Driver
enter s d = record d { csect = s; values = touch s d.values }

unfoldable pub put : Bytes → Expression → Driver → Driver
put k e d = record d {
  values = insert d.csect (insert k e (section_or_empty (lookup d.csect d.values))) d.values;
}

abbrev pub fail : Driver → State × Driver
fail d = (failed, error d)

unfoldable pub step : State → Token → Driver → State × Driver
unfolding enter put error
step top (identifier s) d = (named, enter s d)
step named open_brace d = (items, d)
step items close_brace d = (top, d)
step items (identifier k) d = (keyed k, d)
step (keyed k) equals_sign d = (assigned k, d)
step (assigned k) t d = elim (item_type t) [ none ↦ fail d | some e ↦ (valued k e, d) ]
step (valued k e) semicolon d = (items, put k e d)
step failed t d = (failed, d)
step _ t d = fail d

-- The end of the file.
unfoldable pub finish : State → Driver → Driver
unfolding error
finish top d = d
finish failed d = d
finish _ d = error d

unfoldable pub parse_from : State → List Token → Driver → Driver
unfolding step finish
parse_from s [] d = finish s d
parse_from s (t ∷ ts) d = let (s', d') = step s t d in parse_from s' ts d'

-- `yy::Parser::parse`
unfoldable pub parse : List Token → Driver → Driver
unfolding parse_from
parse = parse_from top
