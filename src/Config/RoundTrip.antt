-- ===== src/Config/RoundTrip.antt =====
-- What was written out is read back, from the characters to the values.
use libjustasic.Base.{
  ℕ, zero, suc, ◌*◌, ◌≡◌, ◌≤◌, ◌<◌, refl, ap, ◌∙◌, false, List, [], ◌∷◌, ◌++◌, some, length,
  length-append, arith, All,
}
use libjustasic.Base.Text.{Bytes}
use libjustasic.Config.{Driver}
use libjustasic.Config.Grammar.{Token, parse}
use libjustasic.Config.Scanner.{rule, after_rule, more, scan_loop, scan, parse_scanned, parse_file}
use libjustasic.Config.Scanner.Print.{show, print, IsWritable, Reads, show-Reads, length-show_pos}
use libjustasic.Config.Meaning.{Configuration, tokens, last_value, value_at, parse-tokens}

-- One token, and the blank behind it.
read_token :
    (atof : Bytes → ℕ) (t : Token) (rest : Bytes) (fuel : ℕ)
    → Reads atof t rest
    → scan_loop atof (suc (suc fuel)) (show t ++ 32 ∷ rest) ≡ more t (scan_loop atof fuel rest)
read_token atof t rest fuel (c, s, shape, reads) =
    ap (scan_loop atof (suc (suc fuel))) shape
    ∙ first_round atof c s (suc fuel)
    ∙ ap (after_rule (scan_loop atof (suc fuel))) reads
    ∙ ap (more t) (blank_round atof rest fuel)
  where
    first_round :
        (atof : Bytes → ℕ) (c : ℕ) (s : Bytes) (fuel : ℕ)
        → scan_loop atof (suc fuel) (c ∷ s) ≡ after_rule (scan_loop atof fuel) (rule atof c s)
    first_round atof c s fuel = unfold scan_loop in refl

    blank_round :
        (atof : Bytes → ℕ) (rest : Bytes) (fuel : ℕ)
        → scan_loop atof (suc fuel) (32 ∷ rest) ≡ scan_loop atof fuel rest
    blank_round atof rest fuel = unfold scan_loop in unfold rule in refl

scan_loop-print :
    (atof : Bytes → ℕ) (ts : List Token) (fuel : ℕ)
    → All IsWritable ts
    → 2 * length ts < fuel
    → scan_loop atof fuel (print ts) ≡ some (ts, false)
scan_loop-print atof [] zero w h = absurd (omega arith)
scan_loop-print atof [] (suc fuel) w h = unfold scan_loop in refl
scan_loop-print atof (t ∷ ts) zero w h = absurd (omega arith)
scan_loop-print atof (t ∷ ts) (suc zero) w h = absurd (omega arith)
scan_loop-print atof (t ∷ ts) (suc (suc fuel)) w h =
    read_token atof t (print ts) fuel (show-Reads atof t (print ts) w.0)
    ∙ ap (more t) (scan_loop-print atof ts fuel w.1 (omega arith))

length-print : (ts : List Token) → All IsWritable ts → 2 * length ts ≤ length (print ts)
length-print [] w = omega arith
length-print (t ∷ ts) w =
    omega
      (arith, length-append (show t) (32 ∷ print ts), length-show_pos t w.0, length-print ts w.1)

-- The scanner reads a list of writable tokens back, with no error, whatever `atof` is.
pub scan-print :
    (atof : Bytes → ℕ) (ts : List Token)
    → All IsWritable ts
    → scan atof (print ts) ≡ some (ts, false)
unfolding scan
scan-print atof ts w =
    scan_loop-print atof ts (suc (length (print ts))) w (omega (arith, length-print ts w))

-- A configuration that is written out and parsed has each key at the last value that was assigned to
-- it in its section, with no error. The condition is that its tokens can be written: integers are
-- from 0 and below `2 ^ 31`, texts hold no quote and no line feed, names of sections and keys are
-- letters followed by word characters and none of `true`, `yes`, `false` and `no`, and there are no
-- floating numbers.
pub parse_file-print :
    (atof : Bytes → ℕ) (c : Configuration) (s k : Bytes) (d : Driver)
    → All IsWritable (tokens c)
    → (d' : Driver) × (parse_file atof (some (print (tokens c))) d ≡ some d')
      × (value_at s k d' ≡ last_value s k c (value_at s k d))
      × (d'.unsuccessful ≡ d.unsuccessful)
unfolding parse_file
parse_file-print atof c s k d w =
    let (v, u) = parse-tokens c s k d in
    (parse (tokens c) d, ap (λ r. parse_scanned r d) (scan-print atof (tokens c) w), v, u)
