-- ===== src/Config/Scanner/Ends.antt =====
-- The scanner comes to the end of every file.
use libjustasic.Base.{
  ℕ, zero, suc, ◌≡◌, ◌≢◌, ◌≤◌, ◌<◌, ◌∙◌, All, refl, Bool, true, false, not, ◌&&◌, List, [], ◌∷◌, ap,
  Option, some, if◌then◌else◌, ◌==◌, length, arith, Bool-cases, inl, inr,
}
use libjustasic.Base.Text.{Bytes}
use libjustasic.Flux.Number.{is_digit}
use libjustasic.Config.{Driver, error}
use libjustasic.Config.Grammar.{Token, parse}
use libjustasic.Config.Scanner.{
  is_letter, is_word, is_blank, is_quoted, span, Rule, skip, bad, emit, unterminated, number_rule,
  string_rule, comment, line_rule, slash_rule, mark_rule, rule, after_rule, more, marked, scan_loop,
  scan, parse_scanned, parse_file,
}

-- What a rule leaves is shorter than a bound.
abbrev pub Leaves : ℕ → Rule → Type 0
Leaves n (skip s) = length s ≤ n
Leaves n (bad s) = length s ≤ n
Leaves n (emit t s) = length s ≤ n
Leaves n unterminated = Unit

span-length : (p : ℕ → Bool) (s : Bytes) → length (span p s).1 ≤ length s
span-length p [] = omega arith
span-length p (c ∷ s) = elim (Bool-cases (p c)) [
  | inl e ↦ rw e (omega (arith, span-length p s))
  | inr e ↦ rw e (omega arith)
]

number-Leaves :
    (atof : Bytes → ℕ) (ds s : Bytes) (n : ℕ) → length s ≤ n → Leaves n (number_rule atof ds s)
number-Leaves atof ds [] n h = omega arith
number-Leaves atof ds (c ∷ s) n h = elim (Bool-cases (c == b'.')) [
  | inl e ↦ rw e (omega (arith, span-length is_digit s))
  | inr e ↦ rw e h
]

string-Leaves :
    (s w rest : Bytes) → length rest ≤ length s → Leaves (length s) (string_rule s w rest)
string-Leaves s w [] h = omega arith
string-Leaves s w (c ∷ rest) h = omega arith

comment-Leaves : (s : Bytes) (n : ℕ) → length s ≤ n → Leaves n (comment s)
comment-Leaves [] n h = tt
comment-Leaves (c ∷ []) n h = tt
comment-Leaves (c ∷ d ∷ s) n h = elim (Bool-cases (c == b'*' && d == b'/')) [
  | inl e ↦ rw e (omega arith)
  | inr e ↦ rw e (comment-Leaves (d ∷ s) n (omega arith))
]

line-Leaves : (s rest : Bytes) → length rest ≤ length s → Leaves (length s) (line_rule s rest)
line-Leaves s [] h = omega arith
line-Leaves s (c ∷ rest) h = omega arith

slash-Leaves : (s : Bytes) → Leaves (length s) (slash_rule s)
slash-Leaves [] = omega arith
slash-Leaves (c ∷ s) = elim (Bool-cases (c == b'*')) [
  | inl e ↦ rw e (comment-Leaves s (suc (length s)) (omega arith))
  | inr e ↦ rw e (elim (Bool-cases (c == b'/')) [
    | inl q ↦ rw q (
        line-Leaves (c ∷ s) (span (λ d. not (d == 10)) s).1
          (omega (arith, span-length (λ d. not (d == 10)) s)))
    | inr q ↦ rw q (omega arith)
  ])
]

-- The rules of words and of single characters.
mark-Leaves : (c : ℕ) (s : Bytes) → Leaves (length s) (mark_rule c s)
unfolding mark_rule
mark-Leaves c s = elim (Bool-cases (is_letter c)) [
  | inl e ↦ rw e (span-length is_word s)
  | inr e ↦ rw e (elim (Bool-cases (c == b'{')) [
    | inl e ↦ rw e (omega arith)
    | inr e ↦ rw e (elim (Bool-cases (c == b'}')) [
      | inl e ↦ rw e (omega arith)
      | inr e ↦ rw e (elim (Bool-cases (c == b';')) [
        | inl e ↦ rw e (omega arith)
        | inr e ↦ rw e (elim (Bool-cases (c == b'=')) [
          | inl e ↦ rw e (omega arith)
          | inr e ↦ rw e (elim (Bool-cases (c == b'/')) [
            | inl e ↦ rw e (slash-Leaves s)
            | inr e ↦ rw e (omega arith)
          ])
        ])
      ])
    ])
  ])
]

rule-Leaves : (atof : Bytes → ℕ) (c : ℕ) (s : Bytes) → Leaves (length s) (rule atof c s)
unfolding rule
rule-Leaves atof c s = elim (Bool-cases (is_blank c)) [
  | inl e ↦ rw e (omega arith)
  | inr e ↦ rw e (elim (Bool-cases (is_digit c)) [
    | inl e ↦ rw e (
        number-Leaves atof (c ∷ (span is_digit s).0) (span is_digit s).1 (length s)
          (span-length is_digit s))
    | inr e ↦ rw e (elim (Bool-cases (c == b'"')) [
      | inl e ↦
          rw e (string-Leaves s (span is_quoted s).0 (span is_quoted s).1 (span-length is_quoted s))
      | inr e ↦ rw e (mark-Leaves c s)
    ])
  ])
]

-- What a run of the scanner ends with.
abbrev pub Ended : Option (List Token × Bool) → Type 0
Ended r = (ts : List Token) × (failed : Bool) × (r ≡ some (ts, failed))

marked-Ended : (r : Option (List Token × Bool)) → Ended r → Ended (marked r)
marked-Ended r (ts, failed, e) = (ts, true, ap marked e)

more-Ended : (t : Token) (r : Option (List Token × Bool)) → Ended r → Ended (more t r)
more-Ended t r (ts, failed, e) = (t ∷ ts, failed, ap (more t) e)

round-Ended :
    (atof : Bytes → ℕ) (fuel n : ℕ) (r : Rule)
    → Leaves n r
    → ((s : Bytes) → length s ≤ n → Ended (scan_loop atof fuel s))
    → Ended (after_rule (scan_loop atof fuel) r)
round-Ended atof fuel n (skip s) l ih = ih s l
round-Ended atof fuel n (bad s) l ih = marked-Ended (scan_loop atof fuel s) (ih s l)
round-Ended atof fuel n (emit t s) l ih = more-Ended t (scan_loop atof fuel s) (ih s l)
round-Ended atof fuel n unterminated l ih = ([], true, refl)

scan_loop-Ended :
    (atof : Bytes → ℕ) (fuel : ℕ) (s : Bytes) → length s < fuel → Ended (scan_loop atof fuel s)
unfolding scan_loop
scan_loop-Ended atof zero s h = absurd (omega arith)
scan_loop-Ended atof (suc fuel) [] h = ([], false, refl)
scan_loop-Ended atof (suc fuel) (c ∷ s) h =
    round-Ended atof fuel (length s) (rule atof c s) (rule-Leaves atof c s)
      (λ s' l. scan_loop-Ended atof fuel s' (omega arith))

-- The scanner comes to the end of every text, whatever its bytes, so `Parse` returns for every file:
-- with what the grammar makes of the tokens, in a driver that is marked as unsuccessful where the
-- scanner reported an error.
pub parse_file-some :
    (atof : Bytes → ℕ) (content : Bytes) (d : Driver)
    → (ts : List Token) × (failed : Bool) × (scan atof content ≡ some (ts, failed))
      × (parse_file atof (some content) d ≡ some (parse ts (if failed then error d else d)))
unfolding scan parse_file
parse_file-some atof content d =
    let (ts, failed, e) = scan_loop-Ended atof (suc (length content)) content (omega arith) in
    (ts, failed, e, ap (λ r. parse_scanned r d) e)

span-none : (s : Bytes) → All (λ d. d ≢ 10) s → (span (λ d. not (d == 10)) s).1 ≡ []
span-none [] h = refl
span-none (c ∷ s) h =
    let other : (c == 10) ≡ false = ground (arith, h.0) in rw other (span-none s h.1)

line_comment_rule :
    (atof : Bytes → ℕ) (s : Bytes)
    → All (λ d. d ≢ 10) s
    → rule atof b'/' (b'/' ∷ s) ≡ bad (b'/' ∷ s)
unfolding rule mark_rule
line_comment_rule atof s h = ap (line_rule (b'/' ∷ s)) (span-none s h)

-- A file that ends in a comment of two slashes with no line feed behind it is not scanned without an
-- error: the slashes are unknown tokens.
scan-line_comment :
    (atof : Bytes → ℕ) (s : Bytes)
    → All (λ d. d ≢ 10) s
    → (ts : List Token) × (scan atof (b'/' ∷ b'/' ∷ s) ≡ some (ts, true))
unfolding scan scan_loop
scan-line_comment atof s h =
    let fuel = suc (suc (length s)) in
    let (ts, failed, e) = scan_loop-Ended atof fuel (b'/' ∷ s) (omega arith) in
    (
      ts,
      ap (after_rule (scan_loop atof fuel)) (line_comment_rule atof s h)
          ∙ ap marked {y = some (ts, failed)} (unfold scan_loop in e),
    )
