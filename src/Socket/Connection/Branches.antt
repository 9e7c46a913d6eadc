-- ===== src/Socket/Connection/Branches.antt =====
-- Every branch of the two events, with flag sets that hold the flags.
use libjustasic.Base.{
  ℕ, ◌≡◌, ◌<◌, refl, Bool, true, false, if◌then◌else◌, length, get_or, set, ◌⊎◌, arith, length-set,
  Bool-cases, inl, inr, ap, ◌∙◌,
}
use libjustasic.Flags.{ok, has_flag}
use libjustasic.Flags.Laws.{get_or-set, set_flag_in, remove_flag_in, has_flag_in, has_flag-set}
use libjustasic.Socket.{
  Socket, Probe, ss_dead, ss_accepting, ss_accepted, ss_connected, ss_connecting,
}
use libjustasic.Socket.Connection.{is_clear, connection_event, client_event}
use libjustasic.Socket.Connection.Once.{connection_event_lem, after_event}

-- The flag that an event leaves set.
abbrev pub goal : Bool → Bool → ℕ
goal true true = ss_connected
goal true false = ss_dead
goal false clear = ss_dead

goal_lem :
    (p : Probe) (s : Socket) (connecting : Bool)
    → ss_connected < length s.flags
    → has_flag (after_event p s false connecting).0.flags (goal connecting (is_clear p)) ≡ ok true
goal_lem p s true h = elim (Bool-cases (is_clear p)) [
  | inl c ↦ rw c (
      has_flag-set (set s.flags ss_connecting false) ss_connected
        (omega (arith, length-set s.flags ss_connecting false)))
  | inr c ↦ rw c (has_flag-set s.flags ss_dead (omega arith))
]
goal_lem p s false h = has_flag-set s.flags ss_dead (omega arith)

-- What an event came to: it found the connection standing, or it left a flag set.
abbrev pub Came : Socket → Socket → Bool → ℕ → ℕ → Type 0
Came s s' b standing flag =
    ((b ≡ true) × (has_flag s.flags standing ≡ ok true) × (s' ≡ s))
    ⊎ ((b ≡ false) × (has_flag s.flags standing ≡ ok false) × (has_flag s'.flags flag ≡ ok true))

after_event_lem :
    (p : Probe) (s : Socket) (connected connecting : Bool)
    → ss_connected < length s.flags
    → has_flag s.flags ss_connected ≡ ok connected
    → Came s
        (after_event p s connected connecting).0
        (after_event p s connected connecting).1
        ss_connected
        (goal connecting (is_clear p))
after_event_lem p s true connecting h e = inl (refl, e, refl)
after_event_lem p s false true h e = inr (refl, e, goal_lem p s true h)
after_event_lem p s false false h e = inr (refl, e, goal_lem p s false h)

-- An event of a `ConnectionSocket` never fails. It answers true exactly when the connection stood
-- before, and then changes nothing; else it leaves `SS_CONNECTED` set where the connection was under
-- way and no error was pending, and `SS_DEAD` in every other case.
pub connection_event-branches :
    (p : Probe) (s : Socket)
    → ss_connected < length s.flags
    → (s' : Socket) × (b : Bool) × (connection_event p s ≡ ok (s', b))
      × Came s s' b ss_connected (goal (get_or s.flags ss_connecting false) (is_clear p))
connection_event-branches p s h = (
  _,
  _,
  connection_event_lem p s h,
  after_event_lem p s (get_or s.flags ss_connected false) (get_or s.flags ss_connecting false) h
      (has_flag_in s.flags ss_connected h),
)

accepted_now :
    (s : Socket)
    → ss_accepted < length s.flags
    → has_flag (set (set s.flags ss_accepted true) ss_accepting false) ss_accepted ≡ ok true
accepted_now s h =
    let once = length-set s.flags ss_accepted true in
    let twice = length-set (set s.flags ss_accepted true) ss_accepting false in
    rw
      (
        has_flag_in (set (set s.flags ss_accepted true) ss_accepting false) ss_accepted
            (omega arith),
        get_or-set (set s.flags ss_accepted true) ss_accepting ss_accepted false (omega arith),
        get_or-set s.flags ss_accepted ss_accepted true h,
      )
      refl

-- An event of a `ClientSocket` whose flag set holds all flags never fails. It answers true exactly
-- when the client was accepted before, and then changes nothing; else it leaves `SS_ACCEPTED` set
-- where the client was being accepted, and `SS_DEAD` where it was not.
client_event-branches :
    (s : Socket)
    → ss_accepted < length s.flags
    → (s' : Socket) × (b : Bool) × (client_event s ≡ ok (s', b))
      × Came s s' b ss_accepted (if get_or s.flags ss_accepting false then ss_accepted else ss_dead)
unfolding client_event
client_event-branches s h =
    let accepted = has_flag_in s.flags ss_accepted h in
    let accepting = has_flag_in s.flags ss_accepting (omega arith) in
    elim (Bool-cases (get_or s.flags ss_accepted false)) [
      | inl a ↦ (s, true, (rw (accepted, a) refl), inl (refl, (accepted ∙ ap ok a), refl))
      | inr a ↦ elim (Bool-cases (get_or s.flags ss_accepting false)) [
        | inl b ↦ (
          record s { flags = set (set s.flags ss_accepted true) ss_accepting false },
          false,
          rw
              (
                accepted,
                a,
                accepting,
                b,
                set_flag_in s.flags ss_accepted h,
                remove_flag_in (set s.flags ss_accepted true) ss_accepting
                    (omega (arith, length-set s.flags ss_accepted true)),
              )
              refl,
          inr (refl, (accepted ∙ ap ok a), rw b (accepted_now s h)),
        )
        | inr b ↦ (
          record s { flags = set s.flags ss_dead true },
          false,
          rw (accepted, a, accepting, b, set_flag_in s.flags ss_dead (omega arith)) refl,
          inr (refl, (accepted ∙ ap ok a), rw b (has_flag-set s.flags ss_dead (omega arith))),
        )
      ]
    ]
