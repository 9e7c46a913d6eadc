-- ===== src/Flux/Tests.antt =====
-- Tests of the text functions, and their theorems at concrete texts.
use libjustasic.Base.{◌≡◌, ◌++◌, refl, none, some, [], ◌∷◌, List, All, arith, true, ◌==◌}
use libjustasic.Base.Text.{Bytes, codes, c_str, starts_with, index_of, find_from}
use libjustasic.Ci.{eq, fold}
use libjustasic.Flux.{
  ok, std_substr, std_substr_from, substr, substr_from, behind, split_loop, split, join,
  replace_loop, replace_all_cs, replace_all_ci, strip, is_space, trim_front, trim_back, trim,
  isolate, isolate_loop,
}
use libjustasic.Base.{negsuc, true}
use libjustasic.Flux.Number.{to_string, to_signed, value, unsigned_string, digits}
use libjustasic.Flux.Number.Casts.{to_signed-to_string}
use libjustasic.Flux.Pieces.{Pieces}
use libjustasic.Flux.Split.{split-Pieces}
use libjustasic.Flux.Replace.{replace_all_cs-split}
use libjustasic.Flux.Trim.{IsTrimmed, trim_lem}
use libjustasic.Flux.Url.{url_str, url_loop, escaped, Mode, decode, is_url, url_str-decode}

three_parts : split (codes "a, ,b") (codes ",") ≡ ok (codes "a" ∷ codes " " ∷ codes "b" ∷ [])
unfolding split split_loop find_from index_of starts_with std_substr std_substr_from behind
three_parts = refl

replaced : replace_all_cs (codes "xaax") (codes "a") (codes "bb") ≡ ok (codes "xbbbbx")
unfolding replace_all_cs replace_loop find_from index_of starts_with std_substr std_substr_from
    substr substr_from c_str
replaced = refl

replaced_ci : replace_all_ci (codes "Hi hI") (codes "HI") (codes "yo") ≡ ok (codes "yo yo")
unfolding replace_all_ci replace_loop find_from index_of starts_with std_substr std_substr_from
    substr substr_from c_str eq fold
replaced_ci = refl

stripped : strip (codes "a\r\nb\n") ≡ ok (codes "ab")
unfolding strip replace_all_cs replace_loop find_from index_of starts_with std_substr
    std_substr_from substr substr_from c_str
stripped = refl

trimmed : trim (codes "  a b\t") ≡ codes "a b"
unfolding trim trim_front trim_back is_space
trimmed = refl

isolated : isolate (codes "f(x) y") b'(' b')' ≡ codes "x"
unfolding isolate isolate_loop find_from index_of starts_with
isolated = refl

encoded : url_str (codes "a b") ≡ some (codes "a%20b")
unfolding url_str url_loop escaped
encoded = refl

split-Pieces_example :
    (ps : List Bytes) × (split (codes "k=v") (codes "=") ≡ ok ps)
    × Pieces ◌==◌ (codes "=") (codes "k=v") ps
    × (join [] ps (codes "=") ≡ codes "k=v")
    × All (λ p. index_of ◌==◌ (codes "=") p ≡ none) ps
split-Pieces_example = split-Pieces (codes "k=v") (codes "=") (λ e. cc) (omega arith)

replace_all_cs-split_example :
    (ps : List Bytes) × (split (codes "a--b") (codes "--") ≡ ok ps)
    × (replace_all_cs (codes "a--b") (codes "--") (codes "+") ≡ ok (join [] ps (codes "+")))
replace_all_cs-split_example =
    replace_all_cs-split (codes "a--b") (codes "--") (codes "+") (λ e. cc) (omega arith)
      (omega arith) (omega arith)

trim_lem_example :
    (pre post : Bytes) × (codes " a " ≡ pre ++ (trim (codes " a ") ++ post))
    × All (λ c. is_space c ≡ true) pre
    × All (λ c. is_space c ≡ true) post
    × IsTrimmed (trim (codes " a "))
trim_lem_example = trim_lem (codes " a ")

url_str-decode_example :
    (out : Bytes) × (url_str (codes "a=b") ≡ some out)
    × (decode Mode.plain out ≡ codes "a=b")
    × All (λ b. is_url b ≡ true) out
url_str-decode_example = url_str-decode (codes "a=b") (omega arith) (omega arith)

minus_twelve : to_string (negsuc 11) ≡ codes "-12"
unfolding to_string unsigned_string digits
minus_twelve = refl

to_signed-to_string_example :
    to_signed 32 (codes " " ++ (to_string (negsuc 11) ++ codes " apples")) ≡ value (negsuc 11)
unfolding is_space
to_signed-to_string_example =
    to_signed-to_string 32 (negsuc 11) (codes " ") (codes " apples") (refl, tt) refl
