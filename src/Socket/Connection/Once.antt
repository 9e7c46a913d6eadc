-- ===== src/Socket/Connection/Once.antt =====
-- How often a connection is reported.
use libjustasic.Base.{
  ℕ, suc, ◌≡◌, ◌≤◌, ◌<◌, refl, Bool, true, false, List, [], ◌∷◌, if◌then◌else◌, ◌==◌, length,
  get_or, set, arith, length-set, Bool-cases, inl, inr, ap, sym, ◌∙◌, subst, ltb, ltb→lt,
}
use libjustasic.Flags.{ok, Bits, set_flags, has_flag}
use libjustasic.Flags.Laws.{get_or-set, set_flag_in, remove_flag_in, has_flag_in, set_flag_out}
use libjustasic.Socket.{
  Socket, Event, on_connect, on_error, update_socket, Probe, optval, notify, multiplex_error,
  ss_dead, ss_connecting, ss_connected, mx_writable,
}
use libjustasic.Socket.Connection.{
  is_clear, finish_connect, connection_event, Connect, established, in_progress, refused,
  start_connect,
}

-- What an event of a connection ends with, where no flag lies outside the set.
abbrev pub finished : Probe → Socket → Bool → Socket
finished p s true =
    notify on_connect (record s { flags = set (set s.flags ss_connecting false) ss_connected true })
finished p s false = record (notify (on_error (optval p)) s) { flags = set s.flags ss_dead true }

abbrev pub after_event : Probe → Socket → Bool → Bool → Socket × Bool
after_event p s true b = (s, true)
after_event p s false true = (finished p s (is_clear p), false)
after_event p s false false = (record s { flags = set s.flags ss_dead true }, false)

finish_connect_lem :
    (p : Probe) (s : Socket)
    → ss_connected < length s.flags
    → finish_connect p s ≡ ok (finished p s (is_clear p))
unfolding finish_connect
finish_connect_lem p s h = elim (Bool-cases (is_clear p)) [
  | inl e ↦ rw e (
      rw
        (
          remove_flag_in s.flags ss_connecting (omega arith),
          set_flag_in (set s.flags ss_connecting false) ss_connected
              (omega (arith, length-set s.flags ss_connecting false)),
        )
        refl)
  | inr e ↦ rw e (rw (set_flag_in s.flags ss_dead (omega arith)) refl)
]

pub connection_event_lem :
    (p : Probe) (s : Socket)
    → ss_connected < length s.flags
    → connection_event p s
      ≡ ok
          (after_event p s (get_or s.flags ss_connected false) (get_or s.flags ss_connecting false))
unfolding connection_event
connection_event_lem p s h =
    rw (has_flag_in s.flags ss_connected h) (elim (Bool-cases (get_or s.flags ss_connected false)) [
      | inl e ↦ rw e refl
      | inr e ↦ rw e (
          rw (has_flag_in s.flags ss_connecting (omega arith))
            (elim (Bool-cases (get_or s.flags ss_connecting false)) [
              | inl e' ↦ rw e' (rw (finish_connect_lem p s h) refl)
              | inr e' ↦ rw e' (rw (set_flag_in s.flags ss_dead (omega arith)) refl)
            ]))
    ])

-- The calls of `OnConnect` in a trace.
unfoldable pub reports : List Event → ℕ
reports [] = 0
reports (on_connect ∷ es) = suc (reports es)
reports (_ ∷ es) = reports es

-- The life of a connection: `Connect` once, and then events and errors in any order.
pub data Life (s0 : Socket) : Socket → Type 0 where
  begun : {s : Socket} (c : Connect) → start_connect c s0 ≡ ok s → Life s0 s
  event :
      {s s' : Socket} {b : Bool} (p : Probe)
      → Life s0 s
      → connection_event p s ≡ ok (s', b)
      → Life s0 s'
  error : {s : Socket} (p : Probe) → Life s0 s → Life s0 (multiplex_error p s)

-- Reported once if connected, and else not at all.
record IsReported (s : Socket) : Type 0 where
  inside : ss_connected < length s.flags
  once : reports s.events ≡ (if get_or s.flags ss_connected false then 1 else 0)

-- A socket on which `Connect` was not called.
pub record IsFresh (s : Socket) : Type 0 where
  pub inside : ss_connected < length s.flags
  pub unset : get_or s.flags ss_connected false ≡ false
  pub silent : reports s.events ≡ 0

set_connected :
    (s : Socket) (f : Bits)
    → reports s.events ≡ 0
    → ss_connected < length f
    → IsReported (notify on_connect (record s { flags = set f ss_connected true }))
unfolding reports
set_connected s f h inside = record {
  inside = omega (arith, length-set f ss_connected true);
  once = rw (get_or-set f ss_connected ss_connected true inside) (ap suc h);
}

set_other :
    (s s' : Socket) (v : ℕ) (b : Bool)
    → IsReported s
    → v < length s.flags
    → (v == ss_connected) ≡ false
    → reports s'.events ≡ reports s.events
    → s'.flags ≡ set s.flags v b
    → IsReported s'
set_other s s' v b r inside ne e f = record {
  inside = rw f (omega (arith, length-set s.flags v b, r.inside));
  once = e ∙ r.once ∙ sym (rw (f, get_or-set s.flags v ss_connected b inside, ne) refl);
}

after_event-IsReported :
    (p : Probe) (s : Socket) (connected connecting : Bool)
    → get_or s.flags ss_connected false ≡ connected
    → IsReported s
    → IsReported (after_event p s connected connecting).0
unfolding reports
after_event-IsReported p s true b e r = r
after_event-IsReported p s false true e r = elim (Bool-cases (is_clear p)) [
  | inl c ↦ rw c (
      set_connected s (set s.flags ss_connecting false) (r.once ∙ rw e refl)
        (omega (arith, r.inside, length-set s.flags ss_connecting false)))
  | inr c ↦ rw c (set_other s _ ss_dead true r (omega (arith, r.inside)) refl refl refl)
]
after_event-IsReported p s false false e r =
    set_other s _ ss_dead true r (omega (arith, r.inside)) refl refl refl

waiting : Socket → Socket
waiting s =
    notify update_socket
      (record s { flags = set (set s.flags ss_connecting true) mx_writable true })

-- A connection that is under way needs the flag set to hold `MX_WRITABLE`.
start_connect-in_progress :
    (s s' : Socket)
    → ss_connected < length s.flags
    → start_connect in_progress s ≡ ok s'
    → (mx_writable < length s.flags) × (waiting s ≡ s')
unfolding start_connect set_flags waiting
start_connect-in_progress s s' h e =
    let first = set_flag_in s.flags ss_connecting (omega arith) in
    let size = length-set s.flags ss_connecting true in
    elim (Bool-cases (ltb mx_writable (length s.flags))) [
      | inl t ↦
          let fits = ltb→lt mx_writable (length s.flags) t in
          let e' =
            rw (first, set_flag_in (set s.flags ss_connecting true) mx_writable (omega arith)) at
              e in
          (fits, cc)
      | inr t ↦
          let e' =
            rw (first, set_flag_out (set s.flags ss_connecting true) mx_writable (ground arith)) at
              e in
          absurd (cc)
    ]

start_connect-IsReported :
    (c : Connect) (s0 s : Socket) → IsFresh s0 → start_connect c s0 ≡ ok s → IsReported s
unfolding start_connect waiting reports
start_connect-IsReported established s0 s h e =
    let e' = rw (set_flag_in s0.flags ss_connected h.inside) at e in
    let q : notify on_connect (record s0 { flags = set s0.flags ss_connected true }) ≡ s = cc in
    subst IsReported q (set_connected s0 s0.flags h.silent h.inside)
start_connect-IsReported in_progress s0 s h e =
    let (fits, e') = start_connect-in_progress s0 s h.inside e in
    let r : IsReported s0 = record { inside = h.inside; once = h.silent ∙ sym (rw h.unset refl) } in
    let r' : IsReported (record s0 { flags = set s0.flags ss_connecting true }) =
      set_other s0 _ ss_connecting true r (omega (arith, h.inside)) refl refl refl in
    subst IsReported e' (
      set_other _ _ mx_writable true r'
        (omega (arith, fits, length-set s0.flags ss_connecting true)) refl refl refl)
start_connect-IsReported (refused n) s0 s h e =
    let q : notify (on_error n) s0 ≡ s = cc in
    subst IsReported q (record { inside = h.inside; once = h.silent ∙ sym (rw h.unset refl) })

Life-IsReported : {s0 s : Socket} → IsFresh s0 → Life s0 s → IsReported s
unfolding multiplex_error reports
Life-IsReported h (begun c e) = start_connect-IsReported c _ _ h e
Life-IsReported h (event {s = s} {s' = s'} {b = b} p l e) =
    let r = Life-IsReported h l in
    let e' = rw (connection_event_lem p s r.inside) at e in
    let q : after_event p s (get_or s.flags ss_connected false) (get_or s.flags ss_connecting false)
        ≡ (s', b) =
      cc in
    subst (λ (x : Socket × Bool). IsReported x.0) q (after_event-IsReported p s _ _ refl r)
Life-IsReported h (error p l) =
    let r = Life-IsReported h l in record { inside = r.inside; once = r.once }

-- In the life of a connection `OnConnect` is called at most once, and it was called exactly when
-- `SS_CONNECTED` is set.
pub reports-once :
    {s0 s : Socket}
    → IsFresh s0
    → Life s0 s
    → (reports s.events ≤ 1) × (has_flag s.flags ss_connected ≡ ok (reports s.events == 1))
reports-once {s = s} h l =
    let r = Life-IsReported h l in
    rw (has_flag_in s.flags ss_connected r.inside) (ground (arith, r.once))
