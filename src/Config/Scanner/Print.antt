-- ===== src/Config/Scanner/Print.antt =====
-- Tokens written out, and read by the scanner.
use libjustasic.Base.{
  ℕ, ◌+◌, ◌-◌, append-nil, ◌%◌, ◌^◌, ◌≡◌, ◌≤◌, ◌<◌, refl, sym, ap, ◌∙◌, Bool, true, false, List, [],
  ◌∷◌, ◌++◌, if◌then◌else◌, ltb, ◌==◌, min, length, arith, All, ℤ, pos, negsuc, append_assoc,
}
use libjustasic.Base.Text.{Bytes, codes}
use libjustasic.Base.Dict.{bytes_eq}
use libjustasic.Flux.Number.{is_digit, read_digits, unsigned_string}
use libjustasic.Flux.Number.Casts.{unsigned_string-Shows, unsigned_string-All}
use libjustasic.Config.Grammar.{
  Token, cint, str, identifier, bool, float, open_brace, close_brace, semicolon, equals_sign,
}
use libjustasic.Config.Scanner.{
  is_letter, is_word, is_blank, is_quoted, span, atoi, emit, word_token, number_rule, string_rule,
  mark_rule, rule,
}

-- A token as it is written in a file.
abbrev pub show : Token → Bytes
show (cint (pos n)) = unsigned_string n
show (cint (negsuc n)) = []
show (str s) = b'"' ∷ (s ++ b'"' ∷ [])
show (identifier s) = s
show (bool b) = if b then codes "true" else codes "false"
show (float x) = []
show open_brace = b'{' ∷ []
show close_brace = b'}' ∷ []
show semicolon = b';' ∷ []
show equals_sign = b'=' ∷ []

abbrev pub starts_letter : Bytes → Bool
starts_letter [] = false
starts_letter (c ∷ s) = is_letter c

-- The tokens that can be written: no negative and no floating numbers, texts without quotes and
-- line feeds, and names that are no words of the language.
abbrev pub IsWritable : Token → Type 0
IsWritable (cint (pos n)) = n < 2 ^ 31
IsWritable (cint (negsuc n)) = ⊥
IsWritable (str s) = All (λ c. is_quoted c ≡ true) s
IsWritable (identifier s) =
    (starts_letter s ≡ true) × (word_token s ≡ identifier s) × All (λ c. is_word c ≡ true) s
IsWritable (float x) = ⊥
IsWritable (bool b) = Unit
IsWritable open_brace = Unit
IsWritable close_brace = Unit
IsWritable semicolon = Unit
IsWritable equals_sign = Unit

-- Each token is followed by a blank.
abbrev pub print : List Token → Bytes
print [] = []
print (t ∷ ts) = show t ++ 32 ∷ print ts

span-All :
    (p : ℕ → Bool) (w : Bytes) (c : ℕ) (rest : Bytes)
    → All (λ d. p d ≡ true) w
    → p c ≡ false
    → span p (w ++ c ∷ rest) ≡ (w, c ∷ rest)
span-All p [] c rest h stop = rw stop refl
span-All p (d ∷ w) c rest h stop = let e = span-All p w c rest h.1 stop in rw (h.0, e) refl

-- The first character of a token begins a rule that reads the token.
abbrev pub Reads : (Bytes → ℕ) → Token → Bytes → Type 0
Reads atof t rest =
    (c : ℕ) × (s : Bytes) × (show t ++ 32 ∷ rest ≡ c ∷ s) × (rule atof c s ≡ emit t (32 ∷ rest))

atoi-digits : (n : ℕ) (s : Bytes) → n < 2 ^ 31 → read_digits 0 s ≡ n → atoi s ≡ pos n
atoi-digits n s h e =
    let m : min n (2 ^ 63 - 1) % 2 ^ 32 ≡ n = ground arith in
    let small : ltb n (2 ^ 31) ≡ true = ground arith in rw (e, m, small) refl

module _ (atof : Bytes → ℕ) (c : ℕ) (s : Bytes) where
  rule-digit :
      is_digit c ≡ true
      → rule atof c s ≡ number_rule atof (span is_digit (c ∷ s)).0 (span is_digit (c ∷ s)).1
  unfolding rule
  rule-digit h = let blank : is_blank c ≡ false = ground (arith, h) in rw blank (rw h refl)

  rule-word :
      is_letter c ≡ true
      → rule atof c s ≡ emit (word_token (span is_word (c ∷ s)).0) (span is_word (c ∷ s)).1
  unfolding rule mark_rule
  rule-word h =
      let blank : is_blank c ≡ false = ground (arith, h) in
      let digit : is_digit c ≡ false = ground (arith, h) in
      let quote : (c == b'"') ≡ false = ground (arith, h) in
      rw blank (rw digit (rw quote (rw h refl)))

number_rule-blank :
    (atof : Bytes → ℕ) (ds rest : Bytes)
    → number_rule atof ds (32 ∷ rest) ≡ emit (cint (atoi ds)) (32 ∷ rest)
number_rule-blank atof ds rest = refl

word_rule :
    (c : ℕ) (w : Bytes) (t : Token) (rest : Bytes)
    → All (λ d. is_word d ≡ true) (c ∷ w)
    → word_token (c ∷ w) ≡ t
    → emit
        (word_token (span is_word (c ∷ (w ++ 32 ∷ rest))).0)
        (span is_word (c ∷ (w ++ 32 ∷ rest))).1
      ≡ emit t (32 ∷ rest)
word_rule c w t rest h e =
    let cut = span-All is_word (c ∷ w) 32 rest h refl in
    ap (λ (p : Bytes × Bytes). emit (word_token p.0) p.1) cut
    ∙ ap (λ (k : Token). emit k (32 ∷ rest)) e

pub show-Reads : (atof : Bytes → ℕ) (t : Token) (rest : Bytes) → IsWritable t → Reads atof t rest
show-Reads atof (cint (pos n)) rest h =
    let shows = unsigned_string-Shows n (32 ∷ rest) refl in
    let c = b'0' + shows.first in
    let alone = unsigned_string-Shows n [] refl in
    let value : read_digits 0 (unsigned_string n) ≡ n =
      ap (read_digits 0) (sym (append-nil (unsigned_string n))) ∙ alone.reads in
    let digit : is_digit c ≡ true = ground (arith, shows.digit) in
    let cut =
      ap (span is_digit) (sym shows.shape)
      ∙ span-All is_digit (unsigned_string n) 32 rest (unsigned_string-All n) refl in
    (
      c,
      shows.tail,
      shows.shape,
      rule-digit atof c shows.tail digit
          ∙ ap (λ (p : Bytes × Bytes). number_rule atof p.0 p.1) cut
          ∙ ap (λ (z : ℤ). emit (cint z) (32 ∷ rest)) (atoi-digits n (unsigned_string n) h value),
    )
show-Reads atof (cint (negsuc n)) rest h = absurd h
show-Reads atof (str s) rest h = (
  b'"',
  s ++ b'"' ∷ 32 ∷ rest,
  ap (◌∷◌ b'"') (append_assoc s (b'"' ∷ []) (32 ∷ rest)),
  quoted atof s rest h,
)
  where
    quoted :
        (atof : Bytes → ℕ) (s rest : Bytes)
        → All (λ c. is_quoted c ≡ true) s
        → rule atof b'"' (s ++ b'"' ∷ 32 ∷ rest) ≡ emit (str s) (32 ∷ rest)
    quoted atof s rest h =
        let cut = span-All is_quoted s b'"' (32 ∷ rest) h refl in
        unfold rule in ap (λ (p : Bytes × Bytes). string_rule (s ++ b'"' ∷ 32 ∷ rest) p.0 p.1) cut
show-Reads atof (identifier []) rest h = absurd (cc (h.0))
show-Reads atof (identifier (c ∷ w)) rest h = (
  c,
  w ++ 32 ∷ rest,
  refl,
  rule-word atof c (w ++ 32 ∷ rest) h.0 ∙ word_rule c w (identifier (c ∷ w)) rest h.2 h.1,
)
show-Reads atof (float x) rest h = absurd h
show-Reads atof (bool true) rest h = (
  b't',
  codes "rue" ++ 32 ∷ rest,
  refl,
  rule-word atof b't' (codes "rue" ++ 32 ∷ rest) refl
      ∙ word_rule b't' (codes "rue") (bool true) rest (refl, (refl, (refl, (refl, tt))))
          (unfold bytes_eq in refl),
)
show-Reads atof (bool false) rest h = (
  b'f',
  codes "alse" ++ 32 ∷ rest,
  refl,
  rule-word atof b'f' (codes "alse" ++ 32 ∷ rest) refl
      ∙ word_rule b'f' (codes "alse") (bool false) rest (refl, (refl, (refl, (refl, (refl, tt)))))
          (unfold bytes_eq in refl),
)
show-Reads atof open_brace rest h = (b'{', 32 ∷ rest, refl, unfold rule in unfold mark_rule in refl)
show-Reads atof close_brace rest h =
    (b'}', 32 ∷ rest, refl, unfold rule in unfold mark_rule in refl)
show-Reads atof semicolon rest h = (b';', 32 ∷ rest, refl, unfold rule in unfold mark_rule in refl)
show-Reads atof equals_sign rest h =
    (b'=', 32 ∷ rest, refl, unfold rule in unfold mark_rule in refl)

pub length-show_pos : (t : Token) → IsWritable t → 1 ≤ length (show t)
length-show_pos (cint (pos n)) h =
    let shows = unsigned_string-Shows n [] refl in
    let e = ap length (sym (append-nil (unsigned_string n)) ∙ shows.shape) in omega (arith, e)
length-show_pos (cint (negsuc n)) h = absurd h
length-show_pos (str s) h = omega arith
length-show_pos (identifier []) h = absurd (cc (h.0))
length-show_pos (identifier (c ∷ w)) h = omega arith
length-show_pos (float x) h = absurd h
length-show_pos (bool true) h = omega arith
length-show_pos (bool false) h = omega arith
length-show_pos open_brace h = omega arith
length-show_pos close_brace h = omega arith
length-show_pos semicolon h = omega arith
length-show_pos equals_sign h = omega arith
