-- ===== src/Ci.antt =====
-- Case-insensitive character traits and strings: the table `ascii_case_insensitive_map`,
-- `ci::ci_char_traits`, `ci::less` (src/Utilities.cpp) and the `equals_ci` members of `Flux::string`
-- (include/Flux.h). A `char` is its value as an `unsigned char`, below 256.
pub mod Laws
pub mod Map
mod Tests
use Prim.Native.Nat.{Ordering}
use libjustasic.Base.{
  ℕ, zero, suc, ◌-◌, ◌<◌, Bool, true, false, not, ◌||◌, List, [], ◌∷◌, Option, none, some, ltb,
  ◌==◌, if◌then◌else◌, length, get_or, min,
}
use libjustasic.Base.Text.{Bytes, c_str}

abbrev pub ascii_case_insensitive_map : List ℕ
ascii_case_insensitive_map =
    0 ∷ 1 ∷ 2 ∷ 3 ∷ 4 ∷ 5 ∷ 6 ∷ 7 ∷ 8 ∷ 9 ∷ 10 ∷ 11 ∷ 12 ∷ 13 ∷ 14 ∷ 15 ∷ 16 ∷ 17 ∷ 18 ∷ 19 ∷ 20
    ∷ 21 ∷ 22 ∷ 23 ∷ 24 ∷ 25 ∷ 26 ∷ 27 ∷ 28 ∷ 29 ∷ 30 ∷ 31 ∷ 32 ∷ 33 ∷ 34 ∷ 35 ∷ 36 ∷ 37 ∷ 38 ∷ 39
    ∷ 40 ∷ 41 ∷ 42 ∷ 43 ∷ 44 ∷ 45 ∷ 46 ∷ 47 ∷ 48 ∷ 49 ∷ 50 ∷ 51 ∷ 52 ∷ 53 ∷ 54 ∷ 55 ∷ 56 ∷ 57 ∷ 58
    ∷ 59 ∷ 60 ∷ 61 ∷ 62 ∷ 63 ∷ 64 ∷ 97 ∷ 98 ∷ 99 ∷ 100 ∷ 101 ∷ 102 ∷ 103 ∷ 104 ∷ 105 ∷ 106 ∷ 107
    ∷ 108 ∷ 109 ∷ 110 ∷ 111 ∷ 112 ∷ 113 ∷ 114 ∷ 115 ∷ 116 ∷ 117 ∷ 118 ∷ 119 ∷ 120 ∷ 121 ∷ 122 ∷ 91
    ∷ 92 ∷ 93 ∷ 94 ∷ 95 ∷ 96 ∷ 97 ∷ 98 ∷ 99 ∷ 100 ∷ 101 ∷ 102 ∷ 103 ∷ 104 ∷ 105 ∷ 106 ∷ 107 ∷ 108
    ∷ 109 ∷ 110 ∷ 111 ∷ 112 ∷ 113 ∷ 114 ∷ 115 ∷ 116 ∷ 117 ∷ 118 ∷ 119 ∷ 120 ∷ 121 ∷ 122 ∷ 123 ∷ 124
    ∷ 125 ∷ 126 ∷ 127 ∷ 128 ∷ 129 ∷ 130 ∷ 131 ∷ 132 ∷ 133 ∷ 134 ∷ 135 ∷ 136 ∷ 137 ∷ 138 ∷ 139 ∷ 140
    ∷ 141 ∷ 142 ∷ 143 ∷ 144 ∷ 145 ∷ 146 ∷ 147 ∷ 148 ∷ 149 ∷ 150 ∷ 151 ∷ 152 ∷ 153 ∷ 154 ∷ 155 ∷ 156
    ∷ 157 ∷ 158 ∷ 159 ∷ 160 ∷ 161 ∷ 162 ∷ 163 ∷ 164 ∷ 165 ∷ 166 ∷ 167 ∷ 168 ∷ 169 ∷ 170 ∷ 171 ∷ 172
    ∷ 173 ∷ 174 ∷ 175 ∷ 176 ∷ 177 ∷ 178 ∷ 179 ∷ 180 ∷ 181 ∷ 182 ∷ 183 ∷ 184 ∷ 185 ∷ 186 ∷ 187 ∷ 188
    ∷ 189 ∷ 190 ∷ 191 ∷ 192 ∷ 193 ∷ 194 ∷ 195 ∷ 196 ∷ 197 ∷ 198 ∷ 199 ∷ 200 ∷ 201 ∷ 202 ∷ 203 ∷ 204
    ∷ 205 ∷ 206 ∷ 207 ∷ 208 ∷ 209 ∷ 210 ∷ 211 ∷ 212 ∷ 213 ∷ 214 ∷ 215 ∷ 216 ∷ 217 ∷ 218 ∷ 219 ∷ 220
    ∷ 221 ∷ 222 ∷ 223 ∷ 224 ∷ 225 ∷ 226 ∷ 227 ∷ 228 ∷ 229 ∷ 230 ∷ 231 ∷ 232 ∷ 233 ∷ 234 ∷ 235 ∷ 236
    ∷ 237 ∷ 238 ∷ 239 ∷ 240 ∷ 241 ∷ 242 ∷ 243 ∷ 244 ∷ 245 ∷ 246 ∷ 247 ∷ 248 ∷ 249 ∷ 250 ∷ 251 ∷ 252
    ∷ 253 ∷ 254 ∷ 255 ∷ []

-- The table read at a character.
unfoldable pub fold : ℕ → ℕ
fold c = get_or ascii_case_insensitive_map c 0

-- `ci_char_traits::eq`, `ne` and `lt`.
unfoldable pub eq : ℕ → ℕ → Bool
eq c1st c2nd = fold c1st == fold c2nd

pub ne : ℕ → ℕ → Bool
ne c1st c2nd = not (fold c1st == fold c2nd)

pub lt : ℕ → ℕ → Bool
lt c1st c2nd = ltb (fold c1st) (fold c2nd)

-- `*str` of a C string: its end reads as the terminator.
abbrev pub deref : Bytes → ℕ
deref [] = 0
deref (c ∷ s) = c

-- `++str`. The loops never step past a terminator.
abbrev pub advance : Bytes → Bytes
advance [] = []
advance (c ∷ s) = s

-- `ci_char_traits::compare`; its results 1, -1 and 0 are `gt`, `lt` and `eq`.
unfoldable pub compare : Bytes → Bytes → ℕ → Ordering
compare str1 str2 zero = Ordering.eq
compare str1 str2 (suc n) =
    let rest = compare (advance str1) (advance str2) n in
    if ltb (fold (deref str2)) (fold (deref str1))
    then Ordering.gt
    else if ltb (fold (deref str1)) (fold (deref str2))
    then Ordering.lt
    else if deref str1 == 0 || deref str2 == 0
    then Ordering.eq
    else rest

-- `ci_char_traits::find` over the `n` characters of the list: the tail that the returned pointer
-- points at, or `none` for the null pointer.
pub find : Bytes → ℕ → Option Bytes
find [] c = none
find (a ∷ s1) c = elim (ne a c) [ true ↦ find s1 c | false ↦ some (a ∷ s1) ]

-- `std::basic_string::compare` at these traits: the common length first, then the lengths.
unfoldable pub string_compare : Bytes → Bytes → Ordering
unfolding compare
string_compare s t = elim (compare s t (min (length s) (length t))) [
  | Ordering.eq ↦
      if ltb (length s) (length t)
      then Ordering.lt
      else if ltb (length t) (length s)
      then Ordering.gt
      else Ordering.eq
  | Ordering.lt ↦ Ordering.lt
  | Ordering.gt ↦ Ordering.gt
]

-- `Flux::string::equals_ci`: both sides become `ci::string` through `c_str()`.
unfoldable pub equals_ci : Bytes → Bytes → Bool
equals_ci s t = elim (string_compare (c_str s) (c_str t)) [ Ordering.eq ↦ true | _ ↦ false ]

-- `ci::less`.
unfoldable pub less : Bytes → Bytes → Bool
less s1 s2 = elim (string_compare (c_str s1) (c_str s2)) [ Ordering.lt ↦ true | _ ↦ false ]
