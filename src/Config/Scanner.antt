-- ===== src/Config/Scanner.antt =====
-- The rules of src/scanner.ll: the longest match, and the first rule among those. Locations are left
-- out, and `atof` is a parameter.
pub mod Ends
pub mod Print
use libjustasic.Base.{
  ℕ, zero, suc, ◌+◌, ◌-◌, ◌*◌, ◌%◌, ◌^◌, min, Bool, true, false, not, ◌&&◌, ◌||◌, List, [], ◌∷◌,
  ◌++◌, Option, none, some, if◌then◌else◌, ltb, leb, ◌==◌, length, ℤ, pos, negsuc,
}
use libjustasic.Base.Text.{Bytes, codes}
use libjustasic.Base.Dict.{bytes_eq}
use libjustasic.Flux.Number.{is_digit, read_digits}
use libjustasic.Config.{Driver, error}
use libjustasic.Config.Grammar.{
  Token, cint, str, identifier, bool, float, open_brace, close_brace, semicolon, equals_sign, parse,
}

abbrev pub is_letter : ℕ → Bool
is_letter c = (leb b'A' c && leb c b'Z') || (leb b'a' c && leb c b'z')

abbrev pub is_word : ℕ → Bool
is_word c = is_letter c || (is_digit c || (c == b'_' || c == b'-'))

abbrev pub is_blank : ℕ → Bool
is_blank c = c == 32 || (c == 9 || (c == 13 || c == 10))

-- The characters of a quoted text.
abbrev pub is_quoted : ℕ → Bool
is_quoted c = not (c == b'"' || c == 10)

-- The longest prefix of such characters, and the rest.
abbrev pub span : (ℕ → Bool) → Bytes → Bytes × Bytes
span p [] = ([], [])
span p (c ∷ s) = let (w, rest) = span p s in if p c then (c ∷ w, rest) else ([], c ∷ s)

-- `atoi`: the value of `strtol` as an `int` of 32 bits.
abbrev pub atoi : Bytes → ℤ
atoi s =
    let m = min (read_digits 0 s) (2 ^ 63 - 1) % 2 ^ 32 in
    if ltb m (2 ^ 31) then pos m else negsuc (2 ^ 32 - 1 - m)

-- What a rule does: nothing, a token, an error message, or the error of a comment without an end; and
-- what is left of the input.
pub data Rule : Type 0 where
  skip bad : Bytes → Rule
  emit : Token → Bytes → Rule
  unterminated : Rule

-- The words `true`, `yes`, `false` and `no`.
abbrev pub word_token : Bytes → Token
word_token w =
    if bytes_eq w (codes "true") || bytes_eq w (codes "yes")
    then bool true
    else if bytes_eq w (codes "false") || bytes_eq w (codes "no")
    then bool false
    else identifier w

-- Behind the digits of a number.
abbrev pub number_rule : (Bytes → ℕ) → Bytes → Bytes → Rule
number_rule atof ds [] = emit (cint (atoi ds)) []
number_rule atof ds (c ∷ s) =
    if c == b'.'
    then emit (float (atof (ds ++ c ∷ (span is_digit s).0))) (span is_digit s).1
    else emit (cint (atoi ds)) (c ∷ s)

-- Behind a quote: the text must end with a quote or a line feed.
abbrev pub string_rule : Bytes → Bytes → Bytes → Rule
string_rule s w [] = bad s
string_rule s w (c ∷ rest) = emit (str w) rest

-- Behind the start of a comment.
abbrev pub comment : Bytes → Rule
comment [] = unterminated
comment (c ∷ []) = unterminated
comment (c ∷ d ∷ s) = let rest = comment (d ∷ s) in if c == b'*' && d == b'/' then skip s else rest

-- Behind two slashes: the comment must end with a line feed.
abbrev pub line_rule : Bytes → Bytes → Rule
line_rule s [] = bad s
line_rule s (c ∷ rest) = skip rest

abbrev pub slash_rule : Bytes → Rule
slash_rule [] = bad []
slash_rule (c ∷ s) =
    if c == b'*'
    then comment s
    else if c == b'/'
    then line_rule (c ∷ s) (span (λ d. not (d == 10)) s).1
    else bad (c ∷ s)

-- The rules of words, of single characters, and of all other text.
unfoldable pub mark_rule : ℕ → Bytes → Rule
mark_rule c s =
    if is_letter c
    then emit (word_token (span is_word (c ∷ s)).0) (span is_word (c ∷ s)).1
    else if c == b'{'
    then emit open_brace s
    else if c == b'}'
    then emit close_brace s
    else if c == b';'
    then emit semicolon s
    else if c == b'='
    then emit equals_sign s
    else if c == b'/'
    then slash_rule s
    else bad s

-- The rule for an input that begins with a character.
unfoldable pub rule : (Bytes → ℕ) → ℕ → Bytes → Rule
rule atof c s =
    if is_blank c
    then skip s
    else if is_digit c
    then number_rule atof (span is_digit (c ∷ s)).0 (span is_digit (c ∷ s)).1
    else if c == b'"'
    then string_rule s (span is_quoted s).0 (span is_quoted s).1
    else mark_rule c s

abbrev pub more : Token → Option (List Token × Bool) → Option (List Token × Bool)
more t none = none
more t (some (ts, failed)) = some (t ∷ ts, failed)

abbrev pub marked : Option (List Token × Bool) → Option (List Token × Bool)
marked none = none
marked (some (ts, failed)) = some (ts, true)

-- What a rule does to the scan of the rest.
abbrev pub after_rule : (Bytes → Option (List Token × Bool)) → Rule → Option (List Token × Bool)
after_rule scan_rest (skip rest) = scan_rest rest
after_rule scan_rest (bad rest) = marked (scan_rest rest)
after_rule scan_rest (emit t rest) = more t (scan_rest rest)
after_rule scan_rest unterminated = some ([], true)

-- The scanner with a bound on its rounds: the tokens, and whether it reported an error.
unfoldable pub scan_loop : (Bytes → ℕ) → ℕ → Bytes → Option (List Token × Bool)
unfolding rule
scan_loop atof zero s = none
scan_loop atof (suc fuel) [] = some ([], false)
scan_loop atof (suc fuel) (c ∷ s) = after_rule (scan_loop atof fuel) (rule atof c s)

-- One round for each byte, and one for the end.
unfoldable pub scan : (Bytes → ℕ) → Bytes → Option (List Token × Bool)
unfolding scan_loop
scan atof s = scan_loop atof (suc (length s)) s

abbrev pub parse_scanned : Option (List Token × Bool) → Driver → Option Driver
parse_scanned none d = none
parse_scanned (some (ts, failed)) d = some (parse ts (if failed then error d else d))

-- `Parse` of a file with this content, or of one that cannot be opened.
unfoldable pub parse_file : (Bytes → ℕ) → Option Bytes → Driver → Option Driver
unfolding scan
parse_file atof none d = some (error d)
parse_file atof (some content) d = parse_scanned (scan atof content) d
