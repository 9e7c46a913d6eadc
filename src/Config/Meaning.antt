-- ===== src/Config/Meaning.antt =====
-- What a configuration means, and that the parser stores it.
use libjustasic.Base.{
  ◌≡◌, refl, ◌≢◌, sym, ap, ◌∙◌, true, List, [], ◌∷◌, ◌++◌, Option, none, some, if◌then◌else◌,
  append_assoc, append-nil, arith, Bool-cases, inl, inr,
}
use libjustasic.Base.Text.{Bytes}
use libjustasic.Base.Dict.{
  Dict, lookup, insert, lookup-insert, lookup-insert_self, lookup-insert_ne, bytes_eq, bytes_eq_iff,
}
use libjustasic.Config.{Expression, Driver, error}
use libjustasic.Config.Grammar.{
  Token, cint, str, identifier, bool, float, open_brace, close_brace, semicolon, equals_sign,
  item_type, top, named, items, failed, section_or_empty, enter, put, step, finish, parse_from,
  parse,
}

-- An assignment: a key, the token of its value and what that token stands for.
pub record Assignment : Type 0 where
  pub key : Bytes
  pub token : Token
  pub value : Expression
  pub stands : item_type token ≡ some value

-- A configuration: sections of assignments, in the order of the file.
abbrev pub Configuration : Type 0
Configuration = List (Bytes × List Assignment)

abbrev pub item_tokens : List Assignment → List Token
item_tokens [] = []
item_tokens (a ∷ as_) = identifier a.key ∷ equals_sign ∷ a.token ∷ semicolon ∷ item_tokens as_

abbrev pub tokens : Configuration → List Token
tokens [] = []
tokens ((name, as_) ∷ c) =
    identifier name ∷ open_brace ∷ (item_tokens as_ ++ close_brace ∷ tokens c)

-- The value of a key in a section: the last assignment to it in any section of that name, and what was
-- there before where there is none.
abbrev pub last_item : Bytes → List Assignment → Option Expression → Option Expression
last_item k [] before = before
last_item k (a ∷ as_) before = last_item k as_ (if bytes_eq a.key k then some a.value else before)

abbrev pub last_value : Bytes → Bytes → Configuration → Option Expression → Option Expression
last_value s k [] before = before
last_value s k ((name, as_) ∷ c) before =
    last_value s k c (if bytes_eq name s then last_item k as_ before else before)

-- The value that the driver holds.
abbrev pub value_in : Bytes → Option (Dict Expression) → Option Expression
value_in k none = none
value_in k (some m) = lookup k m

abbrev pub value_at : Bytes → Bytes → Driver → Option Expression
value_at s k d = value_in k (lookup s d.values)

put_all : List Assignment → Driver → Driver
put_all [] d = d
put_all (a ∷ as_) d = put_all as_ (put a.key a.value d)

parse-item :
    (a : Assignment) (rest : List Token) (d : Driver)
    → parse_from items (identifier a.key ∷ equals_sign ∷ a.token ∷ semicolon ∷ rest) d
      ≡ parse_from items rest (put a.key a.value d)
unfolding parse_from step
parse-item a rest d = rw (a.stands, step) refl

parse-items :
    (as_ : List Assignment) (rest : List Token) (d : Driver)
    → parse_from items (item_tokens as_ ++ close_brace ∷ rest) d
      ≡ parse_from top rest (put_all as_ d)
unfolding put_all
parse-items [] rest d = unfold parse_from in unfold step in refl
parse-items (a ∷ as_) rest d =
    parse-item a (item_tokens as_ ++ close_brace ∷ rest) d
    ∙ parse-items as_ rest (put a.key a.value d)

-- A section that is entered and left.
parse-section :
    (name : Bytes) (as_ : List Assignment) (rest : List Token) (d : Driver)
    → parse_from top (identifier name ∷ open_brace ∷ (item_tokens as_ ++ close_brace ∷ rest)) d
      ≡ parse_from top rest (put_all as_ (enter name d))
parse-section name as_ rest d =
    entered name (item_tokens as_ ++ close_brace ∷ rest) d ∙ parse-items as_ rest (enter name d)
  where
    entered :
        (name : Bytes) (rest : List Token) (d : Driver)
        → parse_from top (identifier name ∷ open_brace ∷ rest) d
          ≡ parse_from items rest (enter name d)
    entered name rest d = unfold parse_from in unfold step in refl

value_in-section_or_empty :
    (k : Bytes) (o : Option (Dict Expression)) → lookup k (section_or_empty o) ≡ value_in k o
unfolding lookup
value_in-section_or_empty k none = refl
value_in-section_or_empty k (some m) = refl

value_at-enter : (s k name : Bytes) (d : Driver) → value_at s k (enter name d) ≡ value_at s k d
unfolding enter
value_at-enter s k name d = elim (Bool-cases (bytes_eq name s)) [
  | inl e ↦
      ap (value_in k)
        (lookup-insert_self name s (section_or_empty (lookup name d.values)) d.values e)
      ∙ value_in-section_or_empty k (lookup name d.values)
      ∙ ap (λ t. value_in k (lookup t d.values)) ((bytes_eq_iff name s).0 e)
  | inr e ↦
      ap (value_in k) (lookup-insert_ne name s (section_or_empty (lookup name d.values)) d.values e)
]

value_at-put :
    (s k j : Bytes) (e : Expression) (d : Driver)
    → value_at s k (put j e d) ≡ (
        if bytes_eq d.csect s
        then (if bytes_eq j k then some e else value_at s k d)
        else value_at s k d)
unfolding put
value_at-put s k j e d =
    let m = section_or_empty (lookup d.csect d.values) in
    elim (Bool-cases (bytes_eq d.csect s)) [
      | inl q ↦
          let here = (bytes_eq_iff d.csect s).0 q in
          rw q (
            ap (value_in k) (lookup-insert_self d.csect s (insert j e m) d.values q)
            ∙ lookup-insert j k e m
            ∙ ap (λ o. if bytes_eq j k then some e else o)
                (value_in-section_or_empty k (lookup d.csect d.values)
                  ∙ ap (λ t. value_in k (lookup t d.values)) here))
      | inr q ↦ rw q (ap (value_in k) (lookup-insert_ne d.csect s (insert j e m) d.values q))
    ]

-- What the actions of a section leave.
put_all_lem :
    (s k : Bytes) (as_ : List Assignment) (d : Driver)
    → (value_at s k (put_all as_ d)
        ≡ (if bytes_eq d.csect s then last_item k as_ (value_at s k d) else value_at s k d))
      × ((put_all as_ d).unsuccessful ≡ d.unsuccessful)
unfolding put_all
put_all_lem s k [] d = (ground arith, refl)
put_all_lem s k (a ∷ as_) d =
    let (v, u) = put_all_lem s k as_ (put a.key a.value d) in
    let one = value_at-put s k a.key a.value d in
    let same : (put a.key a.value d).csect ≡ d.csect = unfold put in refl in
    let kept : (put a.key a.value d).unsuccessful ≡ d.unsuccessful = unfold put in refl in
    elim (Bool-cases (bytes_eq d.csect s)) [
      | inl q ↦ (v ∙ rw (same, q) (ap (last_item k as_) (one ∙ rw q refl)), u ∙ kept)
      | inr q ↦ (v ∙ rw (same, q) (one ∙ rw q refl), u ∙ kept)
    ]

enter_lem :
    (name : Bytes) (d : Driver)
    → ((enter name d).csect ≡ name) × ((enter name d).unsuccessful ≡ d.unsuccessful)
unfolding enter
enter_lem name d = (refl, refl)

section_lem :
    (s k name : Bytes) (as_ : List Assignment) (d : Driver)
    → (value_at s k (put_all as_ (enter name d))
        ≡ (if bytes_eq name s then last_item k as_ (value_at s k d) else value_at s k d))
      × ((put_all as_ (enter name d)).unsuccessful ≡ d.unsuccessful)
section_lem s k name as_ d =
    let (v, u) = put_all_lem s k as_ (enter name d) in
    let (name_, kept) = enter_lem name d in
    (v ∙ rw (name_, value_at-enter s k name d) refl, u ∙ kept)

-- The parser accepts every configuration, and a key then has the value of the last assignment to it
-- in its section, wherever that section was opened again; what was there before is kept elsewhere.
parse_from-tokens :
    (c : Configuration) (rest : List Token) (s k : Bytes) (d : Driver)
    → (d' : Driver) × (parse_from top (tokens c ++ rest) d ≡ parse_from top rest d')
      × (value_at s k d' ≡ last_value s k c (value_at s k d))
      × (d'.unsuccessful ≡ d.unsuccessful)
parse_from-tokens [] rest s k d = (d, refl, refl, refl)
parse_from-tokens ((name, as_) ∷ c) rest s k d =
    let d1 = put_all as_ (enter name d) in
    let (d', run, v, u) = parse_from-tokens c rest s k d1 in
    let (v1, u1) = section_lem s k name as_ d in
    (
      d',
      regroup name as_ (tokens c) rest d ∙ parse-section name as_ (tokens c ++ rest) d ∙ run,
      v ∙ ap (last_value s k c) v1,
      u ∙ u1,
    )
  where
    regroup :
        (name : Bytes) (as_ : List Assignment) (ts rest : List Token) (d : Driver)
        → parse_from top
            ((identifier name ∷ open_brace ∷ (item_tokens as_ ++ close_brace ∷ ts)) ++ rest)
            d
          ≡ parse_from top
              (identifier name ∷ open_brace ∷ (item_tokens as_ ++ close_brace ∷ (ts ++ rest)))
              d
    regroup name as_ ts rest d =
        ap (λ l. parse_from top (identifier name ∷ open_brace ∷ l) d)
          (append_assoc (item_tokens as_) (close_brace ∷ ts) rest)

-- The parser accepts every configuration, and a key then has the value of the last assignment to it in
-- its section, wherever that section was opened again, or the one that it had before.
pub parse-tokens :
    (c : Configuration) (s k : Bytes) (d : Driver)
    → (value_at s k (parse (tokens c) d) ≡ last_value s k c (value_at s k d))
      × ((parse (tokens c) d).unsuccessful ≡ d.unsuccessful)
unfolding parse
parse-tokens c s k d =
    let (d', run, v, u) = parse_from-tokens c [] s k d in
    let whole = ap (λ l. parse_from top l d) (sym (append-nil (tokens c))) ∙ run ∙ ended d' in
    (ap (value_at s k) whole ∙ v, ap (λ (d : Driver). d.unsuccessful) whole ∙ u)
  where
    ended : (d' : Driver) → parse_from top [] d' ≡ d'
    ended d' = unfold parse_from in unfold finish in refl

parse_from-failed : (ts : List Token) (d : Driver) → parse_from failed ts d ≡ d
unfolding parse_from step finish
parse_from-failed [] d = refl
parse_from-failed (t ∷ ts) d = parse_from-failed ts d

module _ (rest : List Token) (d : Driver) where
  named-other : (t : Token) → t ≢ open_brace → parse_from named (t ∷ rest) d ≡ error d
  unfolding parse_from step
  named-other open_brace h = absurd (h refl)
  named-other close_brace h = parse_from-failed rest (error d)
  named-other semicolon h = parse_from-failed rest (error d)
  named-other equals_sign h = parse_from-failed rest (error d)
  named-other (cint n) h = parse_from-failed rest (error d)
  named-other (str v) h = parse_from-failed rest (error d)
  named-other (identifier v) h = parse_from-failed rest (error d)
  named-other (bool b) h = parse_from-failed rest (error d)
  named-other (float x) h = parse_from-failed rest (error d)

error_lem :
    (s k : Bytes) (d : Driver)
    → (value_at s k (error d) ≡ value_at s k d) × ((error d).unsuccessful ≡ true)
unfolding error
error_lem s k d = (refl, refl)

-- Where the name of a section is not followed by a brace, the driver is marked as unsuccessful, what
-- follows is not read, and every value from before stays in force.
pub parse-broken :
    (c : Configuration) (name : Bytes) (t : Token) (rest : List Token) (s k : Bytes) (d : Driver)
    → t ≢ open_brace
    → (value_at s k (parse (tokens c ++ identifier name ∷ t ∷ rest) d)
        ≡ last_value s k c (value_at s k d))
      × ((parse (tokens c ++ identifier name ∷ t ∷ rest) d).unsuccessful ≡ true)
unfolding parse
parse-broken c name t rest s k d other =
    let (d', run, v, u) = parse_from-tokens c (identifier name ∷ t ∷ rest) s k d in
    let stop : parse_from top (identifier name ∷ t ∷ rest) d' ≡ error (enter name d') =
      unfold parse_from in unfold step in named-other rest (enter name d') t other in
    let (kept, marked) = error_lem s k (enter name d') in
    (
      ap (value_at s k) (run ∙ stop) ∙ kept ∙ value_at-enter s k name d' ∙ v,
      ap (λ (d : Driver). d.unsuccessful) (run ∙ stop) ∙ marked,
    )
