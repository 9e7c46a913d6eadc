-- ===== src/Placeholder/Tests.antt =====
-- Tests of the placeholders, and their theorems at concrete texts.
use libjustasic.Base.{arith, ◌≡◌, refl, [], ◌∷◌}
use libjustasic.Base.Text.{
  Bytes, codes, c_str, starts_with, index_of, find_from, is_lacking, is_lacking-Lacks,
}
use libjustasic.Base.Dict.{Dict, lookup, bytes_eq}
use libjustasic.Flux.{ok, out_of_range, std_substr, substr}
use libjustasic.Placeholder.{
  default_filters, replacement, replaced, process_loop, process_from, process_string, as_int,
}
use libjustasic.Placeholder.Laws.{process_string-plain, process_string-filter}

abbrev names : Dict Bytes
names = (codes "who", codes "you") ∷ []

-- Not even a placeholder that begins the text is replaced.
unreplaced : process_string 2 default_filters (codes "{who}") names ≡ ok (codes "{who}")
unfolding process_string process_from process_loop find_from index_of starts_with substr std_substr
    replacement replaced lookup bytes_eq c_str as_int
unreplaced = refl

process_string-plain_example :
    process_string 2 default_filters (codes "hi {who}!") names ≡ ok (codes "hi {who}!")
unfolding is_lacking
process_string-plain_example =
    process_string-plain default_filters names (codes "hi ") (codes "who") (codes "!") 0
      (is_lacking-Lacks b'}' (codes "who") refl, tt) (omega arith)
      (is_lacking-Lacks 0 (codes "hi {who}!") refl) (is_lacking-Lacks b'{' (codes "hi ") refl)
      (is_lacking-Lacks b'{' (codes "who}!") refl) (is_lacking-Lacks b'}' (codes "who") refl)
      (is_lacking-Lacks b'|' (codes "who}!") refl)

process_string-filter_example :
    process_string 1 default_filters (codes "hi {who|upper}!") names ≡ out_of_range
unfolding default_filters is_lacking
process_string-filter_example =
    process_string-filter default_filters [] (codes "who", codes "you") (codes "hi ") (codes "who")
      (codes "upper") (codes "!") 0
      (
        is_lacking-Lacks b'}' (codes "upper") refl,
        (
          is_lacking-Lacks b'}' (codes "lower") refl,
          (
            is_lacking-Lacks b'}' (codes "default_if_none") refl,
            (
              is_lacking-Lacks b'}' (codes "empty_if_none") refl,
              (
                is_lacking-Lacks b'}' (codes "empty_if_false") refl,
                (is_lacking-Lacks b'}' (codes "yesno") refl, tt),
              ),
            ),
          ),
        ),
      )
      (omega arith) (is_lacking-Lacks 0 (codes "hi {who|upper}!") refl)
      (is_lacking-Lacks b'{' (codes "hi ") refl) (is_lacking-Lacks b'}' (codes "who|upper") refl)
      (is_lacking-Lacks b'|' (codes "who") refl) (is_lacking-Lacks b'|' (codes "upper}!") refl)
      (is_lacking-Lacks b':' (codes "upper}!") refl)
