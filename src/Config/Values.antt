-- ===== src/Config/Values.antt =====
-- `Section::GetValue` and `value_or`: the value is printed to a stream and read from it again.
use libjustasic.Base.{
  ℕ, zero, suc, ◌-◌, ◌^◌, Bool, true, false, [], ◌∷◌, Option, none, some, if◌then◌else◌, ltb, leb,
  ℤ, pos, negsuc,
}
use libjustasic.Base.Text.{Bytes, c_str}
use libjustasic.Base.Dict.{lookup}
use libjustasic.Flux.{is_space}
use libjustasic.Flux.Number.{to_string, skip_space, after_sign, negate}
use libjustasic.Config.{
  ExType, unknown, integer, string, boolean, floating, Expression, Driver, Section, find_section,
}

-- `ss << value`; `print` is the output of a double.
abbrev pub shown_as : ExType → (ℕ → Bytes) → Expression → Option Bytes
shown_as integer print e = some (to_string e.number)
shown_as string print e = some e.string_
shown_as floating print e = some (print e.floating_)
shown_as boolean print e = some (if e.boolean_ then b'1' ∷ [] else b'0' ∷ [])
shown_as unknown print e = none

abbrev pub shown : (ℕ → Bytes) → Expression → Option Bytes
shown print e = shown_as e.ex_type print e

-- `ss >> type` for `std::string`: the first word.
unfoldable pub word : Bytes → Bytes
word [] = []
word (c ∷ s) = let rest = word s in if is_space c then [] else c ∷ rest

unfoldable pub read_string : Bytes → Bytes
unfolding skip_space word
read_string s = word (skip_space s)

-- For `long`: 0 without digits, and the nearest value beyond the range.
abbrev pub clamped : Option (Bool × ℕ) → ℤ
clamped none = pos 0
clamped (some (false, m)) = if ltb m (2 ^ 63) then pos m else pos (2 ^ 63 - 1)
clamped (some (true, m)) = if leb m (2 ^ 63) then negate m else negsuc (2 ^ 63 - 1)

unfoldable pub read_long : Bytes → ℤ
unfolding skip_space after_sign
read_long s = clamped (after_sign (skip_space s))

-- For `bool`: a number that is neither 0 nor 1 gives true, no number gives false.
abbrev pub is_nonzero : ℤ → Bool
is_nonzero (pos zero) = false
is_nonzero (pos (suc n)) = true
is_nonzero (negsuc n) = true

unfoldable pub read_bool : Bytes → Bool
unfolding read_long
read_bool s = is_nonzero (read_long s)

module _ (print : ℕ → Bytes) {T : Type 0} (read : Bytes → T) where
  abbrev pub got : Option Bytes → Option T
  got none = none
  got (some s) = some (read s)

  abbrev pub get_from : Option Expression → Option T
  get_from none = none
  get_from (some e) = got (shown print e)

  -- `GetValue<T>`
  unfoldable pub get_value : Bytes → Section → Option T
  get_value key s = get_from (lookup (c_str key) s.values)

  abbrev pub value_from : Bytes → Option Section → Option T
  value_from key none = none
  value_from key (some s) = get_value key s

  abbrev pub or_default : Option T → T → T
  or_default none d = d
  or_default (some v) d = v

  -- `value_or`
  unfoldable pub value_or : Bytes → Bytes → T → Driver → T
  unfolding find_section
  value_or section key default_value d =
      or_default (value_from key (find_section section d)) default_value
