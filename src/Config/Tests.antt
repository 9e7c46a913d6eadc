-- ===== src/Config/Tests.antt =====
-- A small configuration, as characters, as tokens and as values.
use libjustasic.Base.{
  ℕ, ◌≡◌, refl, Bool, true, false, List, [], ◌∷◌, ◌++◌, some, if◌then◌else◌, All, arith, pos,
}
use libjustasic.Base.Text.{Bytes, codes}
use libjustasic.Base.Dict.{bytes_eq, lookup}
use libjustasic.Config.{Expression, blank, integer, string, Driver, error}
use libjustasic.Config.Grammar.{Token, cint, str, identifier, semicolon, parse}
use libjustasic.Config.Meaning.{Configuration, tokens, value_at, parse-broken}
use libjustasic.Config.Scanner.{scan, parse_file, scan_loop, rule, mark_rule}
use libjustasic.Config.Scanner.Print.{print, IsWritable}
use libjustasic.Config.Scanner.Ends.{parse_file-some}
use libjustasic.Config.RoundTrip.{parse_file-print}

abbrev no_float : Bytes → ℕ
no_float s = 0

abbrev no_print : ℕ → Bytes
no_print x = []

abbrev fresh : Driver
fresh = record { unsuccessful = false; csect = []; values = [] }

abbrev number_of : ℕ → Expression
number_of n = record blank { ex_type = integer; number = pos n }

abbrev text_of : Bytes → Expression
text_of s = record blank { ex_type = string; string_ = s }

-- net { port = 7; port = 8; } net { host = "a b"; }
abbrev sample : Configuration
sample =
    (
      codes "net",
      record { key = codes "port"; token = cint (pos 7); value = number_of 7; stands = refl }
          ∷ record { key = codes "port"; token = cint (pos 8); value = number_of 8; stands = refl }
          ∷ [],
    )
    ∷ (
      codes "net",
      record {
        key = codes "host";
        token = str (codes "a b");
        value = text_of (codes "a b");
        stands = refl;
      }
          ∷ [],
    )
    ∷ []

scanned :
    scan no_float (codes "net{ok=yes;} // end")
    ≡ scan no_float (codes "net { ok = true ; } / / end")
unfolding scan scan_loop rule mark_rule bytes_eq
scanned = refl

sample-IsWritable : All IsWritable (tokens sample)
unfolding bytes_eq
sample-IsWritable = (
  (refl, refl, (refl, (refl, (refl, tt)))),
  (
    tt,
    (
      (refl, refl, (refl, (refl, (refl, (refl, tt))))),
      (
        tt,
        (
          omega arith,
          (
            tt,
            (
              (refl, refl, (refl, (refl, (refl, (refl, tt))))),
              (
                tt,
                (
                  omega arith,
                  (
                    tt,
                    (
                      tt,
                      (
                        (refl, refl, (refl, (refl, (refl, tt)))),
                        (
                          tt,
                          (
                            (refl, refl, (refl, (refl, (refl, (refl, tt))))),
                            (tt, ((refl, (refl, (refl, tt))), (tt, (tt, tt)))),
                          ),
                        ),
                      ),
                    ),
                  ),
                ),
              ),
            ),
          ),
        ),
      ),
    ),
  ),
)

parse_file-print_example :
    (d' : Driver) × (parse_file no_float (some (print (tokens sample))) fresh ≡ some d')
    × (value_at (codes "net") (codes "port") d' ≡ some (number_of 8))
    × (d'.unsuccessful ≡ false)
unfolding bytes_eq lookup
parse_file-print_example =
    parse_file-print no_float sample (codes "net") (codes "port") fresh sample-IsWritable

parse-broken_example :
    (value_at
        (codes "net")
        (codes "port")
        (parse (tokens sample ++ identifier (codes "x") ∷ semicolon ∷ []) fresh)
      ≡ some (number_of 8))
    × ((parse (tokens sample ++ identifier (codes "x") ∷ semicolon ∷ []) fresh).unsuccessful ≡ true)
unfolding bytes_eq lookup
parse-broken_example =
    parse-broken sample (codes "x") semicolon [] (codes "net") (codes "port") fresh (λ e. cc)

parse_file-some_example :
    (ts : List Token) × (failed : Bool) × (scan no_float (codes "a { b") ≡ some (ts, failed))
    × (parse_file no_float (some (codes "a { b")) fresh
        ≡ some (parse ts (if failed then error fresh else fresh)))
parse_file-some_example = parse_file-some no_float (codes "a { b") fresh
