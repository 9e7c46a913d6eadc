-- ===== src/Flux/Edit.antt =====
-- The members of `Flux::string` that build and change texts (include/Flux.h). A member that changes
-- its object returns a copy of what it leaves there; texts are shorter than `max_size()`.
pub mod Laws
use libjustasic.Base.{
  ℕ, zero, suc, ◌+◌, ◌-◌, ◌≡◌, ◌≤◌, ◌↔◌, refl, sym, ap, ◌∙◌, Bool, true, false, not, List, [], ◌∷◌,
  ◌++◌, Option, none, some, ltb, ◌==◌, if◌then◌else◌, length, take, drop, replicate, get_elem?,
  arith, Bool-cases, inl, inr, take-append-drop, take-append, drop-append, drop-drop, length-take,
  append_assoc, append-nil, take_all, drop_all,
}
use Prim.Native.Nat.{Ordering}
use libjustasic.Base.Text.{Bytes, c_str}
use libjustasic.Ci.{string_compare, equals_ci}
use libjustasic.Flux.{Run, ok, out_of_range, ◌>>=◌, std_substr, replace_all_cs, join}

-- The constructors: from a character, from `n` of them, from C strings, from a part of a text, and
-- from a list.
unfoldable pub of_char : ℕ → Bytes
of_char chr = chr ∷ []

unfoldable pub of_chars : ℕ → ℕ → Bytes
of_chars n chr = replicate n chr

unfoldable pub of_pointer : Bytes → ℕ → Bytes
of_pointer str len = take len str

unfoldable pub of_c_string : Bytes → Bytes
of_c_string str = c_str str

unfoldable pub of_part : Bytes → ℕ → ℕ → Run Bytes
unfolding std_substr
of_part str pos n = std_substr str pos n

unfoldable pub of_list : List Bytes → Bytes → Bytes
of_list vec delim = join [] vec delim

-- `erase(pos, n)`
unfoldable pub erase : Bytes → ℕ → ℕ → Run Bytes
erase s pos n = if ltb (length s) pos then out_of_range else ok (take pos s ++ drop (pos + n) s)

-- `insert`: of a text, a part of one, the first bytes at a pointer, and `n` characters.
unfoldable pub insert : Bytes → ℕ → Bytes → Run Bytes
insert s pos1 str =
    if ltb (length s) pos1 then out_of_range else ok (take pos1 s ++ (str ++ drop pos1 s))

unfoldable pub insert_part : Bytes → ℕ → Bytes → ℕ → ℕ → Run Bytes
unfolding insert std_substr
insert_part s pos1 str pos2 n =
    if ltb (length s) pos1
    then out_of_range
    else (do part ← std_substr str pos2 n; insert s pos1 part)

unfoldable pub insert_pointer : Bytes → ℕ → Bytes → ℕ → Run Bytes
unfolding insert
insert_pointer s pos1 str n = insert s pos1 (take n str)

unfoldable pub insert_chars : Bytes → ℕ → ℕ → ℕ → Run Bytes
unfolding insert
insert_chars s pos1 n c = insert s pos1 (replicate n c)

-- `replace`: by a text, by a part of one, and by characters.
unfoldable pub replace : Bytes → ℕ → ℕ → Bytes → Run Bytes
replace s pos n str =
    if ltb (length s) pos then out_of_range else ok (take pos s ++ (str ++ drop (pos + n) s))

unfoldable pub replace_part : Bytes → ℕ → ℕ → Bytes → ℕ → ℕ → Run Bytes
unfolding replace std_substr
replace_part s pos n str pos1 n1 =
    if ltb (length s) pos
    then out_of_range
    else (do part ← std_substr str pos1 n1; replace s pos n part)

unfoldable pub replace_chars : Bytes → ℕ → ℕ → ℕ → ℕ → Run Bytes
unfolding replace
replace_chars s pos n n1 chr = replace s pos n (replicate n1 chr)

-- `append`, and `operator+=`, `operator+` and `push_back`.
unfoldable pub append : Bytes → Bytes → Bytes
append s str = s ++ str

unfoldable pub append_part : Bytes → Bytes → ℕ → ℕ → Run Bytes
unfolding std_substr
append_part s str pos n = do part ← std_substr str pos n; ok (s ++ part)

unfoldable pub append_chars : Bytes → ℕ → ℕ → Bytes
append_chars s n c = s ++ replicate n c

unfoldable pub push_back : Bytes → ℕ → Bytes
push_back s c = s ++ c ∷ []

-- `push_back` of a text and `operator+=`: nothing is done when both are one object.
unfoldable pub push_text : Bool → Bytes → Bytes → Bytes
push_text same s str = if same then s else s ++ str

-- `assign`
unfoldable pub assign_part : Bytes → ℕ → ℕ → Run Bytes
unfolding std_substr
assign_part str pos n = std_substr str pos n

unfoldable pub assign_pointer : Bytes → ℕ → Bytes
assign_pointer s n = take n s

unfoldable pub assign_chars : ℕ → ℕ → Bytes
assign_chars n c = replicate n c

-- `operator=` of a text, which does nothing when both are one object.
unfoldable pub assign_text : Bool → Bytes → Bytes → Bytes
assign_text same s str = if same then s else str

-- `operator+` with a character or a C string on the left.
unfoldable pub char_plus : ℕ → Bytes → Bytes
unfolding of_char push_text
char_plus chr str = push_text false (of_char chr) str

unfoldable pub c_string_plus : Bytes → Bytes → Bytes
unfolding of_c_string push_text
c_string_plus str s = push_text false (of_c_string str) s

-- `operator[]`: behind the last character stands a terminator, and further on nothing is defined.
unfoldable pub subscript : Bytes → ℕ → Option ℕ
subscript s n = get_elem? (s ++ 0 ∷ []) n

-- `operator<<` on what a stream holds.
unfoldable pub stream_out : Bytes → Bytes → Bytes
stream_out os str = os ++ str

-- `swap`, with what either text is then.
unfoldable pub swap : Bytes → Bytes → Bytes × Bytes
swap s str = (str, s)

-- `resize`
unfoldable pub resize : Bytes → ℕ → Bytes
resize s n = take n s ++ replicate (n - length s) 0

-- `at`
unfoldable pub at : Bytes → ℕ → Run ℕ
at s pos = elim (get_elem? s pos) [ none ↦ out_of_range | some c ↦ ok c ]

-- `compare`: the characters as unsigned ones, then the lengths.
unfoldable pub compare : Bytes → Bytes → Ordering
compare [] [] = Ordering.eq
compare [] (d ∷ t) = Ordering.lt
compare (c ∷ s) [] = Ordering.gt
compare (c ∷ s) (d ∷ t) =
    let rest = compare s t in if ltb c d then Ordering.lt else if ltb d c then Ordering.gt else rest

unfoldable pub compare_part : Bytes → ℕ → ℕ → Bytes → Run Ordering
unfolding compare std_substr
compare_part s pos1 n1 str = do part ← std_substr s pos1 n1; ok (compare part str)

unfoldable pub compare_parts : Bytes → ℕ → ℕ → Bytes → ℕ → ℕ → Run Ordering
unfolding compare std_substr
compare_parts s pos1 n1 str pos2 n2 = do
  part ← std_substr s pos1 n1
  part2 ← std_substr str pos2 n2
  ok (compare part part2)

abbrev pub is_eq : Ordering → Bool
is_eq Ordering.eq = true
is_eq Ordering.lt = false
is_eq Ordering.gt = false

abbrev pub is_lt : Ordering → Bool
is_lt Ordering.lt = true
is_lt Ordering.eq = false
is_lt Ordering.gt = false

-- `operator==` and `equals_cs`: with a C string, a `std::string`, a `ci::string`, another text.
unfoldable pub equals : Bytes → Bytes → Bool
unfolding compare
equals s str = is_eq (compare s str)

unfoldable pub equals_c_string : Bytes → Bytes → Bool
unfolding equals
equals_c_string s str = equals s (c_str str)

unfoldable pub differs : Bytes → Bytes → Bool
unfolding equals
differs s str = not (equals s str)

-- `operator<`
unfoldable pub is_less : Bytes → Bytes → Bool
unfolding compare
is_less s str = is_lt (compare s str)

-- The operators between `std::string` and `ci::string`: the `std::string` goes through `c_str()`.
unfoldable pub ci_equals : Bytes → Bytes → Bool
unfolding string_compare
ci_equals base ci = is_eq (string_compare (c_str base) ci)

unfoldable pub base_plus_ci : Bytes → Bytes → Bytes
base_plus_ci leftval rightval = leftval ++ c_str rightval

-- `strip(_delim)`
unfoldable pub strip_char : Bytes → ℕ → Run Bytes
strip_char s delim = replace_all_cs s (delim ∷ []) []
