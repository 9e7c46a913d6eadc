-- ===== src/Socket/Connection/Size.antt =====
-- The sockets with the flag set that include/Socket.h declares, of 32 bits.
use libjustasic.Base.{ℕ, ◌≡◌, Option, length, arith, refl, set, true, length-set}
use libjustasic.Flags.{undefined_behaviour, out_of_range, default_size, set_flags, no_flags}
use libjustasic.Flags.Laws.{set_flag_in, set_flag_out, has_flag_out}
use libjustasic.Socket.{
  Socket, SocketCall, construct, ss_connecting, ss_accepted, mx_readable, mx_writable,
}
use libjustasic.Socket.Connection.{in_progress, start_connect, client_event}

construct_declared :
    (socket : SocketCall → ℕ) (fd : Option ℕ) (type protocol : ℕ)
    → construct default_size socket fd type protocol ≡ undefined_behaviour
unfolding construct set_flags no_flags
construct_declared socket fd type protocol =
    rw (set_flag_out (no_flags default_size) mx_readable (omega arith)) refl

-- With the declared 32 bits the flags of the constructor, of a connection under way and of an
-- accepted client lie outside the set: the first two are undefined behaviour, and the event of a
-- client throws.
pub declared_size :
    (socket : SocketCall → ℕ) (fd : Option ℕ) (type protocol : ℕ) (s : Socket)
    → length s.flags ≡ default_size
    → (construct default_size socket fd type protocol ≡ undefined_behaviour)
      × (start_connect in_progress s ≡ undefined_behaviour)
      × (client_event s ≡ out_of_range)
unfolding start_connect set_flags client_event
declared_size socket fd type protocol s h = (
  construct_declared socket fd type protocol,
  rw
      (
        set_flag_in s.flags ss_connecting (omega arith),
        set_flag_out (set s.flags ss_connecting true) mx_writable
            (omega (arith, length-set s.flags ss_connecting true)),
      )
      refl,
  rw (has_flag_out s.flags ss_accepted (omega arith)) refl,
)
