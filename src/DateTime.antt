-- ===== src/DateTime.antt =====
-- `DateTime` of include/Utilities.h and src/Utilities.cpp. The calendar of the system, the clock and
-- `fmt::format` are parameters; a time is not negative.
mod Tests
use libjustasic.Base.{
  ℕ, zero, suc, ◌+◌, ◌*◌, ◌/◌, ◌%◌, ◌≡◌, ◌≤◌, ◌<◌, refl, Bool, true, false, ◌&&◌, ◌||◌, List, [],
  Option, none, some, ◌∷◌, ◌++◌, if◌then◌else◌, ◌==◌, arith, not, Bool-cases, inl, inr, Bool-cases,
  inl, inr,
}
use libjustasic.Base.Text.{Bytes, Lacks, codes, is_lacking, is_lacking-Lacks, c_str}

-- `struct tm`, as far as it is read.
pub record Tm : Type 0 where
  pub tm_year : ℕ
  pub tm_mon : ℕ
  pub tm_yday : ℕ
  pub tm_hour : ℕ
  pub tm_min : ℕ
  pub tm_sec : ℕ

pub record DateTime : Type 0 where
  pub the_time : ℕ
  pub tm : Tm

module _ (localtime : ℕ → Tm) where
  -- `SetTime` and `SetTM`.
  pub set_time : ℕ → DateTime
  set_time time = record { the_time = time; tm = localtime time }

  -- The constructor: 0 stands for the time of the clock.
  pub date_time : ℕ → ℕ → DateTime
  unfolding set_time
  date_time now time = set_time (if time == 0 then now else time)

  -- `operator=`
  pub assign : DateTime → DateTime
  unfolding set_time
  assign dt = set_time dt.the_time

  -- The copy constructor does not set the pointer `tm` first: unless it happens to be null, `SetTM`
  -- writes through it, which is `none`.
  pub copy : Bool → DateTime → Option DateTime
  unfolding set_time
  copy tm_is_null dt = if tm_is_null then some (set_time dt.the_time) else none

  -- `now`
  pub now_ : ℕ → DateTime
  unfolding date_time
  now_ now = date_time now 0

  -- `strptime`, over what the C library reads and the time that `mktime` makes of it; a failure to read
  -- goes unnoticed.
  pub strptime : (Bytes → Bytes → Tm) → (Tm → ℕ) → Bytes → Bytes → DateTime
  unfolding set_time
  strptime c_strptime mktime time fmt = set_time (mktime (c_strptime (c_str time) (c_str fmt)))

-- `strftime`, over `std::put_time`.
pub strftime : (Tm → Bytes → Bytes) → Bytes → DateTime → Bytes
strftime put_time fmt d = put_time d.tm (c_str fmt)

-- `DemangleSymbol`, over the status and the text of `__cxa_demangle`, where there is one.
pub demangle_symbol : Option (Bytes → ℕ × Bytes) → Bytes → Bytes
demangle_symbol none sym = sym
demangle_symbol (some demangle) sym =
    let (status, demangled) = demangle (c_str sym) in if status == 0 then c_str demangled else sym

-- `GetYear` to `GetSecond`. `GetDay` gives the day of the year.
pub get_year : DateTime → ℕ
get_year d = d.tm.tm_year

pub get_month : DateTime → ℕ
get_month d = d.tm.tm_mon

pub get_day : DateTime → ℕ
get_day d = d.tm.tm_yday

pub get_hour : DateTime → ℕ
get_hour d = d.tm.tm_hour

pub get_minute : DateTime → ℕ
get_minute d = d.tm.tm_min

pub get_second : DateTime → ℕ
get_second d = d.tm.tm_sec

-- The parts of a duration.
pub days : ℕ → ℕ
days t = t / 86400

pub hours : ℕ → ℕ
hours t = (t / 3600) % 24

pub minutes : ℕ → ℕ
minutes t = (t / 60) % 60

pub seconds : ℕ → ℕ
seconds t = t % 60

-- An argument of `format`: a number, a character (0 for none), or a text.
pub data Arg : Type 0 where
  number char : ℕ → Arg
  text : Bytes → Arg

module _ (format : Bytes → List Arg → Bytes) where
  abbrev pub plural : ℕ → Arg
  plural n = char (if n == 1 then 0 else b's')

  abbrev pub comma : Bool → Arg
  comma need_comma = text (if need_comma then codes ", " else [])

  -- The pieces that `duration` appends; an absent one is empty.
  pub day_piece : ℕ → Bytes
  day_piece d = if d == 0 then [] else format (codes "%ld day%c") (number d ∷ plural d ∷ [])

  pub hour_piece : Bool → ℕ → Bytes
  hour_piece need_comma h =
      if h == 0
      then []
      else format (codes "%s%ld hour%c") (comma need_comma ∷ number h ∷ plural h ∷ [])

  pub minute_piece : Bool → ℕ → Bytes
  minute_piece need_comma m =
      if m == 0
      then []
      else format (codes "%s%ld munute%c") (comma need_comma ∷ number m ∷ plural m ∷ [])

  pub duration : ℕ → Bytes
  unfolding day_piece hour_piece minute_piece days hours minutes seconds
  duration t =
      if (days t == 0 && hours t == 0) && minutes t == 0
      then format (codes "%ld second%c") (number (seconds t) ∷ plural (seconds t) ∷ [])
      else (let had_days = not (days t == 0) in
          let had_hours = had_days || not (hours t == 0) in
          day_piece (days t)
          ++ (hour_piece had_days (hours t) ++ minute_piece had_hours (minutes t)))

-- The parts of a duration add up to it, and each lies in its range.
parts_lem :
    (t : ℕ)
    → (days t * 86400 + (hours t * 3600 + (minutes t * 60 + seconds t)) ≡ t)
      × (hours t < 24)
      × (minutes t < 60)
      × (seconds t < 60)
unfolding days hours minutes seconds
parts_lem t = omega arith

-- `fmt::format` as it is documented, on a text without braces: it copies the text and does not look
-- at the arguments.
abbrev pub CopiesPlain : (Bytes → List Arg → Bytes) → Type 0
CopiesPlain format = (s : Bytes) (args : List Arg) → Lacks b'{' s → Lacks b'}' s → format s args ≡ s

-- The pieces with no argument put in.
abbrev pub plain : Bytes → List Arg → Bytes
plain s args = s

module _ (format : Bytes → List Arg → Bytes) (law : CopiesPlain format) where
  copied :
      (s : Bytes) (args : List Arg)
      → is_lacking b'{' s ≡ true
      → is_lacking b'}' s ≡ true
      → format s args ≡ s
  copied s args h k = law s args (is_lacking-Lacks b'{' s h) (is_lacking-Lacks b'}' s k)

  day_piece-plain : (d : ℕ) → day_piece format d ≡ day_piece plain d
  unfolding day_piece is_lacking
  day_piece-plain d = elim (Bool-cases (d == 0)) [
    | inl e ↦ rw e refl
    | inr e ↦ rw e (copied _ _ refl refl)
  ]

  hour_piece-plain : (c : Bool) (h : ℕ) → hour_piece format c h ≡ hour_piece plain c h
  unfolding hour_piece is_lacking
  hour_piece-plain c h = elim (Bool-cases (h == 0)) [
    | inl e ↦ rw e refl
    | inr e ↦ rw e (copied _ _ refl refl)
  ]

  minute_piece-plain : (c : Bool) (m : ℕ) → minute_piece format c m ≡ minute_piece plain c m
  unfolding minute_piece is_lacking
  minute_piece-plain c m = elim (Bool-cases (m == 0)) [
    | inl e ↦ rw e refl
    | inr e ↦ rw e (copied _ _ refl refl)
  ]

  -- No number of a duration is ever shown: `duration` gives its format strings as they are.
  pub duration-plain : (t : ℕ) → duration format t ≡ duration plain t
  unfolding duration is_lacking
  duration-plain t = elim (Bool-cases ((days t == 0 && hours t == 0) && minutes t == 0)) [
    | inl e ↦ rw e (copied _ _ refl refl)
    | inr e ↦ rw e (
        rw (day_piece-plain (days t)) (
          rw (hour_piece-plain (not (days t == 0)) (hours t))
            (rw (minute_piece-plain (not (days t == 0) || not (hours t == 0)) (minutes t)) refl)))
  ]
