-- ===== src/Flux.antt =====
-- The members of `Flux::string` (include/Flux.h) that do more than pass a call on to `std::string`.
-- A text is the list of its bytes; the searches of `std::string` are those of Base.Text.
pub mod Pieces
pub mod Split
pub mod Replace
pub mod Byte
pub mod Trim
pub mod UrlTable
pub mod Url
pub mod Number
pub mod Search
pub mod Edit
mod Tests
use libjustasic.Base.{
  ℕ, zero, suc, ◌+◌, ◌-◌, ◌≡◌, refl, Bool, true, false, ◌&&◌, ◌||◌, List, [], ◌∷◌, ◌++◌, Option,
  none, some, ltb, leb, ◌==◌, if◌then◌else◌, length, take, drop, get_or, map,
}
use libjustasic.Base.Text.{Bytes, npos, codes, c_str, find_from}
use libjustasic.Ci.{eq}

-- How a member ends: with a value, by throwing `std::out_of_range`, or not within the rounds that
-- the model allows its loop.
pub data Run {ℓ} (A : Type ℓ) : Type ℓ where
  ok : A → Run A
  out_of_range : Run A
  out_of_fuel : Run A

infixl 5 ◌>>=◌
abbrev pub ◌>>=◌ {ℓ κ} : {A : Type ℓ} {B : Type κ} → Run A → (A → Run B) → Run B
ok a >>= f = f a
out_of_range >>= f = out_of_range
out_of_fuel >>= f = out_of_fuel

-- `std::string::substr(pos, n)`; it throws when `pos` lies beyond the text.
unfoldable pub std_substr : Bytes → ℕ → ℕ → Run Bytes
std_substr s pos n = if ltb (length s) pos then out_of_range else ok (take n (drop pos s))

-- The same with `n` left out or `npos`: up to the end.
unfoldable pub std_substr_from : Bytes → ℕ → Run Bytes
std_substr_from s pos = if ltb (length s) pos then out_of_range else ok (drop pos s)

-- `Flux::string::substr`: the `std::string` goes through `c_str()`.
unfoldable pub substr : Bytes → ℕ → ℕ → Run Bytes
substr s pos n = do r ← std_substr s pos n; ok (c_str r)

unfoldable pub substr_from : Bytes → ℕ → Run Bytes
substr_from s pos = do r ← std_substr_from s pos; ok (c_str r)

-- `find`, `find_ci`, `search` and `search_ci`.
abbrev pub find : Bytes → Bytes → ℕ → Option ℕ
find s str pos = find_from ◌==◌ s str pos

abbrev pub find_ci : Bytes → Bytes → ℕ → Option ℕ
find_ci s str pos = find_from eq (c_str s) (c_str str) pos

abbrev pub is_found : Option ℕ → Bool
is_found none = false
is_found (some i) = true

unfoldable pub search : Bytes → Bytes → Bool
search s str = is_found (find s str 0)

pub search_ci : Bytes → Bytes → Bool
search_ci s str = is_found (find_ci s str 0)

-- The next `start` of `split` behind a delimiter found at `end`.
pub behind : ℕ → ℕ → ℕ
behind end delim_size = if ltb (npos - delim_size) end then npos else end + delim_size

-- The loop of `split`: `while (end != npos)` with a bound on its rounds.
pub split_loop : ℕ → Bytes → Bytes → ℕ → List Bytes → Run (List Bytes)
split_loop zero s delim start ret = out_of_fuel
split_loop (suc fuel) s delim start ret = elim (find s delim start) [
  | none ↦ do part ← std_substr_from s start; ok (ret ++ part ∷ [])
  | some end ↦ do
    part ← std_substr s start (end - start)
    split_loop fuel s delim (behind end (length delim)) (ret ++ part ∷ [])
]

-- One round for each byte, and one more.
abbrev pub rounds : Bytes → ℕ
rounds s = length s + 1

pub split : Bytes → Bytes → Run (List Bytes)
unfolding split_loop
split s delim = split_loop (rounds s) s delim 0 []

-- `join` appends to the text that it is called on.
pub join : Bytes → List Bytes → Bytes → Bytes
join str [] delim = str
join str (p ∷ []) delim = str ++ p
join str (p ∷ q ∷ ps) delim = join (str ++ (p ++ delim)) (q ∷ ps) delim

-- The loop of `replace_all_cs` and `replace_all_ci`, over the search that they call.
pub replace_loop : ℕ → (Bytes → ℕ → Option ℕ) → Bytes → Bytes → Bytes → Option ℕ → Run Bytes
replace_loop zero search orig repl new_string pos = out_of_fuel
replace_loop (suc fuel) search orig repl new_string none = ok new_string
replace_loop (suc fuel) search orig repl new_string (some pos) = do
  front ← substr new_string 0 pos
  back ← substr_from new_string (pos + length orig)
  let next = front ++ repl ++ back
  replace_loop fuel search orig repl next (search next (pos + length repl))

pub replace_all_cs : Bytes → Bytes → Bytes → Run Bytes
unfolding replace_loop
replace_all_cs s orig repl =
    replace_loop (rounds s) (λ t pos. find t orig pos) orig repl s (find s orig 0)

pub replace_all_ci : Bytes → Bytes → Bytes → Run Bytes
unfolding replace_loop
replace_all_ci s orig repl =
    replace_loop (rounds s) (λ t pos. find_ci t orig pos) orig repl s (find_ci s orig 0)

-- `strip()` takes line feeds and then carriage returns out.
pub strip : Bytes → Run Bytes
unfolding replace_all_cs
strip s = do new_buf ← replace_all_cs s (10 ∷ []) []; replace_all_cs new_buf (13 ∷ []) []

-- `isspace` in the "C" locale.
unfoldable pub is_space : ℕ → Bool
is_space c = (leb 9 c && leb c 13) || c == 32

pub trim_front : Bytes → Bytes
trim_front [] = []
trim_front (c ∷ s) = elim (is_space c) [ true ↦ trim_front s | false ↦ c ∷ s ]

-- The second loop of `trim`: one round takes the last byte off.
pub trim_back : ℕ → Bytes → Bytes
trim_back zero s = s
trim_back (suc n) s = elim (is_space (get_or s n 0)) [ true ↦ trim_back n (take n s) | false ↦ s ]

pub trim : Bytes → Bytes
unfolding trim_front trim_back
trim s = let t = trim_front s in trim_back (length t) t

-- `tolower` and `toupper` in the "C" locale.
pub to_lower : ℕ → ℕ
to_lower c = if leb b'A' c && leb c b'Z' then c + 32 else c

pub to_upper : ℕ → ℕ
to_upper c = if leb b'a' c && leb c b'z' then c - 32 else c

abbrev pub tolower : Bytes → Bytes
tolower = map to_lower

abbrev pub toupper : Bytes → Bytes
toupper = map to_upper

-- The loop of `isolate` from where it starts.
pub isolate_loop : Bytes → ℕ → Bytes
isolate_loop [] e = []
isolate_loop (c ∷ s) e = elim (c == e) [ true ↦ [] | false ↦ c ∷ isolate_loop s e ]

-- `isolate(b, e)`: without a `b`, `find` gives `npos` and `pos + 1` is 0.
pub isolate : Bytes → ℕ → ℕ → Bytes
unfolding isolate_loop
isolate s b e = elim (find s (b ∷ []) 0) [
  | none ↦ isolate_loop s e
  | some pos ↦ isolate_loop (drop (pos + 1) s) e
]
