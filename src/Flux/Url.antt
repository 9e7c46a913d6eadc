-- ===== src/Flux/Url.antt =====
-- `url_str` of include/Flux.h: percent-encoding.
use libjustasic.Base.{
  ℕ, zero, suc, ◌+◌, ◌-◌, ◌*◌, ◌≤◌, ◌<◌, ◌≡◌, ◌≢◌, refl, ap, sym, ◌∙◌, Bool, true, false, ◌&&◌,
  ◌||◌, not, inl, inr, append-nil, ne→==, passes_below, passes_below_lem, Option-cases, [], ◌∷◌,
  ◌++◌, Option, none, some, ltb, leb, ◌==◌, if◌then◌else◌, get_or, arith, All, All-append,
  append_assoc,
}
use libjustasic.Base.Text.{Bytes, Lacks}
use libjustasic.Flux.UrlTable.{url_escape_table}

-- What one round appends. A `char` is signed: from 128 on `c` is negative, and the read lies before
-- the table (`none`).
unfoldable pub escaped : ℕ → Option Bytes
escaped c =
    if ltb c 128
    then (elim (get_or url_escape_table c none) [ none ↦ some (c ∷ []) | some e ↦ some e ])
    else none

-- `while (t && *t)`: up to the terminator.
unfoldable pub url_loop : Bytes → Bytes → Option Bytes
unfolding escaped
url_loop [] ret = some ret
url_loop (c ∷ t) ret = elim (c == 0) [
  | true ↦ some ret
  | false ↦ elim (escaped c) [ none ↦ none | some e ↦ url_loop t (ret ++ e) ]
]

unfoldable pub url_str : Bytes → Option Bytes
unfolding url_loop
url_str s = url_loop s []

-- A reader of percent-encoded text: between escapes, behind `%`, and behind the first digit.
pub data Mode : Type 0 where
  plain : Mode
  percent : Mode
  low : ℕ → Mode

hex_value : ℕ → ℕ
hex_value c = if leb c b'9' then c - b'0' else c - b'a' + 10

pub decode : Mode → Bytes → Bytes
unfolding hex_value
decode m [] = []
decode plain (c ∷ s) =
    let escape = decode percent s in
    let copy = c ∷ decode plain s in if c == b'%' then escape else copy
decode percent (c ∷ s) = decode (low (hex_value c)) s
decode (low h) (c ∷ s) = (h * 16 + hex_value c) ∷ decode plain s

-- The bytes that may stand in the result.
pub is_url : ℕ → Bool
is_url c =
    (leb b'a' c && leb c b'z')
    || (leb b'A' c && leb c b'Z')
    || (leb b'0' c && leb c b'9')
    || c == b'('
    || c == b')'
    || c == b'.'
    || c == b'_'
    || c == b'~'
    || c == b'%'

shape : ℕ → Bytes → Bool
shape c (x ∷ []) = x == c && not (x == b'%') && is_url x
shape c (p ∷ h ∷ l ∷ []) =
    p == b'%' && hex_value h * 16 + hex_value l == c && is_url p && is_url h && is_url l
shape c _ = false

has_shape : ℕ → Bool
has_shape c = elim (escaped (suc c)) [ none ↦ false | some e ↦ shape (suc c) e ]

shape_table : passes_below has_shape 127 ≡ true
unfolding passes_below has_shape shape is_url hex_value escaped
shape_table = refl

shape-decode :
    (c : ℕ) (e rest : Bytes)
    → shape c e ≡ true
    → (decode plain (e ++ rest) ≡ c ∷ decode plain rest) × All (λ b. is_url b ≡ true) e
unfolding shape decode
shape-decode c [] rest h = cc
shape-decode c (x ∷ []) rest h = ground arith
shape-decode c (p ∷ q ∷ []) rest h = cc
shape-decode c (p ∷ h ∷ l ∷ []) rest e = ground arith
shape-decode c (p ∷ h ∷ l ∷ m ∷ e) rest k = cc

escaped_lem : (c : ℕ) → c ≢ 0 → c < 128 → (e : Bytes) × (escaped c ≡ some e) × (shape c e ≡ true)
unfolding has_shape
escaped_lem zero h k = absurd (h refl)
escaped_lem (suc c) h k =
    let t = passes_below_lem has_shape 127 c shape_table (omega arith) in
    elim (Option-cases (escaped (suc c))) [ inl e ↦ cc | inr (x, e) ↦ (x, e, ground arith) ]

url_loop-decode :
    (s ret : Bytes)
    → Lacks 0 s
    → All (λ c. c < 128) s
    → (out : Bytes) × (url_loop s ret ≡ some (ret ++ out))
      × (decode plain out ≡ s)
      × All (λ b. is_url b ≡ true) out
unfolding url_loop decode
url_loop-decode [] ret h k = ([], ap some (sym (append-nil ret)), refl, tt)
url_loop-decode (c ∷ s) ret h k =
    let (e, hit, shaped) = escaped_lem c h.0 k.0 in
    let (out, runs, back, allowed) = url_loop-decode s (ret ++ e) h.1 k.1 in
    let (one, allowed_one) = shape-decode c e out shaped in
    (
      e ++ out,
      rw (ne→== c 0 h.0, hit, url_loop) (runs ∙ ap some (append_assoc ret e out)),
      one ∙ ap (◌∷◌ c) back,
      All-append _ e out allowed_one allowed,
    )

-- An ASCII text with no NUL is percent-encoded into letters, digits and `(`, `)`, `.`, `_`, `~`,
-- `%` only, and decoding gives the text back.
pub url_str-decode :
    (s : Bytes)
    → Lacks 0 s
    → All (λ c. c < 128) s
    → (out : Bytes) × (url_str s ≡ some out)
      × (decode plain out ≡ s)
      × All (λ b. is_url b ≡ true) out
unfolding url_str
url_str-decode s h k = url_loop-decode s [] h k

url_loop-high_byte :
    (p ret : Bytes) (c : ℕ) (q : Bytes)
    → Lacks 0 p
    → All (λ c. c < 128) p
    → 128 ≤ c
    → url_loop (p ++ c ∷ q) ret ≡ none
unfolding url_loop
url_loop-high_byte [] ret c q h k big = ground (arith, escaped_high c big)
  where
    escaped_high : (c : ℕ) → 128 ≤ c → escaped c ≡ none
    escaped_high c big = unfold escaped in ground arith
url_loop-high_byte (b ∷ p) ret c q h k big =
    let (e, hit, _) = escaped_lem b h.0 k.0 in
    rw (ne→== b 0 h.0, hit, url_loop) (url_loop-high_byte p (ret ++ e) c q h.1 k.1 big)

-- On a text with a byte from 128 on, before any NUL, the table is read out of bounds.
url_str-high_byte :
    (p : Bytes) (c : ℕ) (q : Bytes)
    → Lacks 0 p
    → All (λ c. c < 128) p
    → 128 ≤ c
    → url_str (p ++ c ∷ q) ≡ none
unfolding url_str
url_str-high_byte p c q h k big = url_loop-high_byte p [] c q h k big
