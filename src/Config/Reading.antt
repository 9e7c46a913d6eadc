-- ===== src/Config/Reading.antt =====
-- What is read from a configuration.
use libjustasic.Base.{
  ℕ, ◌≡◌, refl, sym, ap, ◌∙◌, true, false, [], ◌∷◌, ◌++◌, Option, none, some, ℤ, pos, negsuc, All,
  arith, append-nil,
}
use libjustasic.Base.Text.{Bytes, Lacks, c_str_self}
use libjustasic.Base.Dict.{Dict, lookup}
use libjustasic.Flux.{is_space}
use libjustasic.Flux.Number.{to_string, skip_space, after_sign}
use libjustasic.Flux.Number.Casts.{strtol-to_string, is_negative, abs, fits, skip_space-append}
use libjustasic.Config.{integer, string, Expression, Driver, section_of, find_section}
use libjustasic.Config.Grammar.{parse}
use libjustasic.Config.Meaning.{Configuration, tokens, last_value, value_at, value_in, parse-tokens}
use libjustasic.Config.Values.{
  word, read_string, clamped, read_long, get_from, get_value, value_from, or_default, value_or,
}

module _ (print : ℕ → Bytes) {T : Type 0} (read : Bytes → T) where
  value_from-section :
      (s k : Bytes) (o : Option (Dict Expression))
      → Lacks 0 k
      → value_from print read k (section_of s o) ≡ get_from print read (value_in k o)
  unfolding get_value
  value_from-section s k none h = refl
  value_from-section s k (some m) h = ap (λ t. get_from print read (lookup t m)) (c_str_self k h)

  -- What `value_or` answers is the value that the driver holds, printed and read again, or the
  -- default.
  pub value_or_lem :
      (s k : Bytes) (default_value : T) (d : Driver)
      → Lacks 0 s
      → Lacks 0 k
      → value_or print read s k default_value d
        ≡ or_default print read (get_from print read (value_at s k d)) default_value
  unfolding value_or find_section
  value_or_lem s k default_value d hs hk =
      ap (λ o. or_default print read o default_value)
        (ap (λ t. value_from print read k (section_of t (lookup t d.values))) (c_str_self s hs)
          ∙ value_from-section s k (lookup s d.values) hk)

-- From a parsed configuration `value_or` reads the last assignment to the key in its section, printed
-- to a stream and read from it, and gives the default where there is none.
pub value_or-parse :
    (print : ℕ → Bytes) {T : Type 0} (read : Bytes → T) (c : Configuration) (s k : Bytes)
    (default_value : T) (d : Driver)
    → Lacks 0 s
    → Lacks 0 k
    → d.values ≡ []
    → value_or print read s k default_value (parse (tokens c) d)
      ≡ or_default print read (get_from print read (last_value s k c none)) default_value
value_or-parse print read c s k default_value d hs hk empty =
    let none_yet : value_at s k d ≡ none = ap (λ m. value_in k (lookup s m)) empty ∙ nothing s k in
    value_or_lem print read s k default_value (parse (tokens c) d) hs hk
    ∙ ap (λ o. or_default print read (get_from print read o) default_value)
        ((parse-tokens c s k d).0 ∙ ap (last_value s k c) none_yet)
  where
    nothing : (s k : Bytes) → value_in k (lookup s []) ≡ none
    nothing s k = unfold lookup in refl

clamped_lem : (z : ℤ) → fits 64 z ≡ true → clamped (some (is_negative z, abs z)) ≡ z
clamped_lem (pos n) h = rw h refl
clamped_lem (negsuc n) h = ground (arith, h)

read_long-to_string : (z : ℤ) → fits 64 z ≡ true → read_long (to_string z) ≡ z
unfolding read_long
read_long-to_string z h =
    ap (λ t. clamped (after_sign (skip_space t))) (sym (append-nil (to_string z)))
    ∙ ap clamped (strtol-to_string z [] refl)
    ∙ clamped_lem z h

-- A 64-bit integer of the configuration is read as itself.
get_from-integer :
    (print : ℕ → Bytes) (e : Expression)
    → e.ex_type ≡ integer
    → fits 64 e.number ≡ true
    → get_from print read_long (some e) ≡ some e.number
get_from-integer print e kind h = rw kind (ap some (read_long-to_string e.number h))

word-append :
    (w rest : Bytes) → All (λ c. is_space c ≡ false) w → word rest ≡ [] → word (w ++ rest) ≡ w
unfolding word
word-append [] rest h stop = stop
word-append (c ∷ w) rest h stop = rw h.0 (ap (◌∷◌ c) (word-append w rest h.1 stop))

-- Of a text `GetValue<std::string>` gives the first word only: white space before it is dropped, and so
-- is all that stands behind the next white space.
get_from-string :
    (print : ℕ → Bytes) (e : Expression) (blank : Bytes) (c : ℕ) (w rest : Bytes)
    → e.ex_type ≡ string
    → e.string_ ≡ blank ++ (c ∷ w ++ rest)
    → All (λ d. is_space d ≡ true) blank
    → All (λ d. is_space d ≡ false) (c ∷ w)
    → word rest ≡ []
    → get_from print read_string (some e) ≡ some (c ∷ w)
unfolding read_string
get_from-string print e blank c w rest kind text spaces letters stop =
    rw (kind, text)
      (ap some (
        ap word (skip_space-append blank (c ∷ w ++ rest) spaces ∙ skip_none c (w ++ rest) letters.0)
        ∙ word-append (c ∷ w) rest letters stop))
  where
    skip_none : (c : ℕ) (s : Bytes) → is_space c ≡ false → skip_space (c ∷ s) ≡ c ∷ s
    skip_none c s h = unfold skip_space in rw h refl
