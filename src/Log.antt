-- ===== src/Log.antt =====
-- `Log` of include/Log.h: one statement of the form `"text"_l(arguments...)`. What the
-- logger of `spdlog` does with its arguments is not modelled, nor how it is set up.
mod Tests
use libjustasic.Base.{
  ℕ, suc, ◌≡◌, refl, Bool, true, false, List, [], ◌∷◌, ◌++◌, if◌then◌else◌, length, map,
  append_assoc, ◌∙◌, ap,
}
use libjustasic.Base.Text.{Bytes, c_str}

pub data Level : Type 0 where
  info warn err critical : Level

-- What the logger is given: a level, the format, and the arguments.
pub record Entry : Type 0 where
  pub level : Level
  pub format : Bytes
  pub arguments : List Bytes

pub record Log : Type 0 where
  pub lvl : Level
  pub message : Bytes
  pub alreadylogged : Bool

-- The constructor, from a literal and its length, and the literals.
unfoldable pub construct : Level → Bytes → Log
construct l str = record { lvl = l; message = str; alreadylogged = false }

unfoldable pub log_info : Bytes → Log
unfolding construct
log_info str = construct info str

unfoldable pub log_warn : Bytes → Log
unfolding construct
log_warn str = construct warn str

unfoldable pub log_err : Bytes → Log
unfolding construct
log_err str = construct err str

unfoldable pub log_critical : Bytes → Log
unfolding construct
log_critical str = construct critical str

-- `operator()`, with what the logger has been given.
unfoldable pub call : List Bytes → Log → List Entry → Log × List Entry
call args l out = (
  record l { alreadylogged = true },
  out ++ record { level = l.lvl; format = c_str l.message; arguments = args } ∷ [],
)

-- The destructor.
unfoldable pub destruct : Log → List Entry → List Entry
destruct l out =
    if l.alreadylogged
    then out
    else out ++ record { level = l.lvl; format = c_str l.message; arguments = [] } ∷ []

-- A whole statement: the literal, its calls, and the end of the temporary.
unfoldable pub calls : List (List Bytes) → Log → List Entry → Log × List Entry
unfolding call
calls [] l out = (l, out)
calls (args ∷ rest) l out = let (l', out') = call args l out in calls rest l' out'

unfoldable pub statement : Log → List (List Bytes) → List Entry → List Entry
unfolding calls destruct
statement l argss out = let (l', out') = calls argss l out in destruct l' out'

abbrev pub entry_of : Log → List Bytes → Entry
entry_of l args = record { level = l.lvl; format = c_str l.message; arguments = args }

calls_lem :
    (args : List Bytes) (rest : List (List Bytes)) (l : Log) (out : List Entry)
    → ((calls (args ∷ rest) l out).1 ≡ out ++ map (entry_of l) (args ∷ rest))
      × ((calls (args ∷ rest) l out).0.alreadylogged ≡ true)
unfolding calls call
calls_lem args [] l out = (refl, refl)
calls_lem args (args' ∷ rest) l out =
    let l' = record l { alreadylogged = true } in
    let (all, logged) = calls_lem args' rest l' (out ++ entry_of l args ∷ []) in
    (all ∙ append_assoc out (entry_of l args ∷ []) (map (entry_of l) (args' ∷ rest)), logged)

-- What a statement gives to the logger.
abbrev pub entries : Log → List (List Bytes) → List Entry
entries l [] = entry_of l [] ∷ []
entries l (args ∷ rest) = map (entry_of l) (args ∷ rest)

-- A statement with no call gives its text to the logger once, at the end; one with calls gives it once
-- for each call, in their order, and not again at the end.
statement_lem :
    (lvl : Level) (message : Bytes) (argss : List (List Bytes)) (out : List Entry)
    → statement (construct lvl message) argss out ≡ out ++ entries (construct lvl message) argss
unfolding statement construct destruct
statement_lem lvl message [] out = unfold calls in refl
statement_lem lvl message (args ∷ rest) out =
    let (all, logged) = calls_lem args rest (construct lvl message) out in rw (logged, destruct) all
