-- ===== src/File/Directory.antt =====
-- Directories, and the tests on paths.
use libjustasic.Base.{
  ℕ, zero, suc, ◌-◌, ◌≡◌, ◌≤◌, ◌⊎◌, refl, Bool, true, false, List, [], ◌∷◌, ◌++◌, Option, none,
  some, if◌then◌else◌, ◌==◌, length, take, get_or, arith, length-append, append_assoc, append-nil,
  ap, sym, ◌∙◌, Bool-cases, Option-cases, inl, inr, subst, take_all, ◌||◌,
}
use libjustasic.Base.Text.{Bytes, c_str, codes}
use libjustasic.Base.Dict.{bytes_eq}

-- What `stat` says of a path.
pub data Kind : Type 0 where
  missing regular directory other : Kind

module _ (stat : Bytes → Kind) where
  pub is_directory : Bytes → Bool
  is_directory str = elim (stat str) [ directory ↦ true | _ ↦ false ]

  pub is_file : Bytes → Bool
  is_file file = elim (stat file) [ regular ↦ true | _ ↦ false ]

  -- `FileExists` over the answers of `fopen` and `access`.
  pub file_exists : (Bytes → Bool) → (Bytes → Bool) → Bytes → Bool
  file_exists fopen access file = elim (stat file) [
    | missing ↦ false
    | directory ↦ false
    | _ ↦ if fopen file then access file else false
  ]

-- `Delete` over the answer of `unlink`.
pub delete : (Bytes → ℕ) → Bytes → Bool
delete unlink file = if unlink file == 0 then true else false

-- The loop of `MakeDirectory`: the calls of `mkdir` from the pointer on, the last one included.
pub mkdir_loop : Bytes → Bytes → List Bytes
mkdir_loop front [] = front ∷ []
mkdir_loop front (c ∷ rest) =
    let calls = mkdir_loop (front ++ c ∷ []) rest in if c == b'/' then front ∷ calls else calls

-- The buffer without a slash at its end.
abbrev pub unslashed : Bytes → Bytes
unslashed tmp = if get_or tmp (length tmp - 1) 0 == b'/' then take (length tmp - 1) tmp else tmp

abbrev pub from_second : Bytes → List Bytes
from_second [] = [] ∷ []
from_second (c ∷ rest) = mkdir_loop (c ∷ []) rest

-- What is done with the buffer; `none` for the empty path, where the byte before it is read.
abbrev pub calls_of : Bytes → Option (List Bytes)
calls_of [] = none
calls_of (c ∷ tmp) = some (from_second (unslashed (c ∷ tmp)))

-- `MakeDirectory`
pub make_directory : Bytes → Option (List Bytes)
make_directory dir = calls_of (take 255 (c_str dir))

-- The calls of `mkdir` come with growing lengths.
unfoldable pub Ascending : ℕ → List Bytes → Type 0
Ascending n [] = Unit
Ascending n (w ∷ ws) = (n ≤ length w) × Ascending (suc (length w)) ws

unfoldable pub Occurs : Bytes → List Bytes → Type 0
Occurs w [] = ⊥
Occurs w (v ∷ ws) = (v ≡ w) ⊎ Occurs w ws

weaken-Ascending : (ws : List Bytes) (n m : ℕ) → m ≤ n → Ascending n ws → Ascending m ws
unfolding Ascending
weaken-Ascending [] n m l h = h
weaken-Ascending (w ∷ ws) n m l h = (omega (arith, h.0), h.1)

mkdir_loop-Ascending : (front rest : Bytes) → Ascending (length front) (mkdir_loop front rest)
unfolding mkdir_loop Ascending
mkdir_loop-Ascending front [] = (omega arith, tt)
mkdir_loop-Ascending front (c ∷ rest) =
    let later = mkdir_loop-Ascending (front ++ c ∷ []) rest in
    let len = length-append front (c ∷ []) in
    elim (Bool-cases (c == b'/')) [
      | inl e ↦ rw e (omega arith, weaken-Ascending _ _ _ (omega (arith, len)) later)
      | inr e ↦ rw e (weaken-Ascending _ _ _ (omega (arith, len)) later)
    ]

mkdir_loop-Occurs :
    (front before after : Bytes)
    → Occurs (front ++ before) (mkdir_loop front (before ++ b'/' ∷ after))
unfolding mkdir_loop Occurs
mkdir_loop-Occurs front [] after = inl (sym (append-nil front))
mkdir_loop-Occurs front (c ∷ before) after =
    let later =
      subst (λ t. Occurs t (mkdir_loop (front ++ c ∷ []) (before ++ b'/' ∷ after)))
        (append_assoc front (c ∷ []) before) (mkdir_loop-Occurs (front ++ c ∷ []) before after) in
    elim (Bool-cases (c == b'/')) [ inl e ↦ rw e (inr later) | inr e ↦ rw e later ]

mkdir_loop-whole : (front rest : Bytes) → Occurs (front ++ rest) (mkdir_loop front rest)
unfolding mkdir_loop Occurs
mkdir_loop-whole front [] = inl (sym (append-nil front))
mkdir_loop-whole front (c ∷ rest) =
    let later =
      subst (λ t. Occurs t (mkdir_loop (front ++ c ∷ []) rest)) (append_assoc front (c ∷ []) rest)
        (mkdir_loop-whole (front ++ c ∷ []) rest) in
    elim (Bool-cases (c == b'/')) [ inl e ↦ rw e (inr later) | inr e ↦ rw e later ]

-- What is made of a path, and of each part of it that ends before a slash.
mkdir_loop-part :
    (front rest before after : Bytes)
    → (rest ≡ before ++ b'/' ∷ after) ⊎ (rest ≡ before)
    → Occurs (front ++ before) (mkdir_loop front rest)
mkdir_loop-part front rest before after (inl e) =
    subst (λ r. Occurs (front ++ before) (mkdir_loop front r)) (sym e)
      (mkdir_loop-Occurs front before after)
mkdir_loop-part front rest before after (inr e) =
    subst (λ r. Occurs (front ++ before) (mkdir_loop front r)) (sym e)
      (mkdir_loop-whole front before)

-- `MakeDirectory` of a path that is not empty, of at most 255 bytes, with no NUL and no slash at the
-- end, returns. Its calls of `mkdir` come in growing lengths, and among them are the path itself and
-- every parent: each part that ends before a slash behind the first byte.
pub make_directory-parents :
    (c : ℕ) (rest before after : Bytes)
    → c_str (c ∷ rest) ≡ c ∷ rest
    → length (c ∷ rest) ≤ 255
    → unslashed (c ∷ rest) ≡ c ∷ rest
    → (rest ≡ before ++ b'/' ∷ after) ⊎ (rest ≡ before)
    → (calls : List Bytes) × (make_directory (c ∷ rest) ≡ some calls)
      × Ascending 1 calls
      × Occurs (c ∷ before) calls
unfolding make_directory
make_directory-parents c rest before after whole short no_slash part = (
  mkdir_loop (c ∷ []) rest,
  ap calls_of (ap (take 255) whole ∙ take_all 255 (c ∷ rest) short)
      ∙ ap (λ t. some (from_second t)) no_slash,
  mkdir_loop-Ascending (c ∷ []) rest,
  mkdir_loop-part (c ∷ []) rest before after part,
)

-- `getdir`: the names that `readdir` gives, without the two dots, as real paths; none for a directory
-- that cannot be opened.
pub getdir : (Bytes → Option (List Bytes)) → (Bytes → Bytes) → Bytes → List Bytes
getdir opendir realpath dir = elim (opendir dir) [ none ↦ [] | some names ↦ kept names ]
  where
    kept : List Bytes → List Bytes
    kept [] = []
    kept (n ∷ names) =
        let rest = kept names in
        if bytes_eq n (codes ".") || bytes_eq n (codes "..")
        then rest
        else realpath (dir ++ (codes "/" ++ n)) ∷ rest

-- The loop over the files of a directory: the lists of those that are directories.
abbrev pub list_below :
    (Bytes → Bool) → (Bytes → Option (List Bytes)) → List Bytes → Option (List Bytes)
list_below is_dir list [] = some []
list_below is_dir list (file ∷ files) =
    let rest = list_below is_dir list files in
    if is_dir file
    then (elim (list file) [
      | none ↦ none
      | some tmp2 ↦ elim rest [ none ↦ none | some tmp ↦ some (tmp2 ++ tmp) ]
    ])
    else rest

-- `DirectoryList` with a bound on the depth.
pub directory_list : ℕ → (Bytes → Bool) → (Bytes → List Bytes) → Bytes → Option (List Bytes)
directory_list zero is_dir get dir = none
directory_list (suc fuel) is_dir get dir =
    let below = list_below is_dir (directory_list fuel is_dir get) (get dir) in
    if is_dir dir then (elim below [ none ↦ none | some tmp ↦ some (get dir ++ tmp) ]) else some []

list_below-none :
    (is_dir : Bytes → Bool) (list : Bytes → Option (List Bytes)) (dir : Bytes)
    (before after : List Bytes)
    → is_dir dir ≡ true
    → list dir ≡ none
    → list_below is_dir list (before ++ dir ∷ after) ≡ none
list_below-none is_dir list dir [] after d n = rw (d, n) refl
list_below-none is_dir list dir (f ∷ before) after d n =
    let rest = list_below-none is_dir list dir before after d n in
    elim (Bool-cases (is_dir f)) [
      | inl e ↦
          rw e (elim (Option-cases (list f)) [
            | inl q ↦ rw q refl
            | inr (tmp2, q) ↦ rw q (rw rest refl)
          ])
      | inr e ↦ rw (e, rest) refl
    ]

-- A directory that holds a link to itself is listed without end, since its entries are resolved to
-- real paths: no depth is enough.
directory_list-cycle :
    (fuel : ℕ) (is_dir : Bytes → Bool) (get : Bytes → List Bytes) (dir : Bytes)
    (before after : List Bytes)
    → is_dir dir ≡ true
    → get dir ≡ before ++ dir ∷ after
    → directory_list fuel is_dir get dir ≡ none
unfolding directory_list
directory_list-cycle zero is_dir get dir before after d g = refl
directory_list-cycle (suc fuel) is_dir get dir before after d g =
    let deeper = directory_list-cycle fuel is_dir get dir before after d g in
    let below : list_below is_dir (directory_list fuel is_dir get) (get dir) ≡ none =
      rw g (list_below-none is_dir (directory_list fuel is_dir get) dir before after d deeper) in
    rw d (rw below refl)
