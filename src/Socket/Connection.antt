-- ===== src/Socket/Connection.antt =====
-- `ConnectionSocket` and `ClientSocket`: `MultiplexEvent` and `Connect`.
pub mod Once
pub mod Branches
pub mod Size
use libjustasic.Base.{
  ℕ, ◌+◌, ◌≡◌, Bool, true, false, List, [], ◌∷◌, Option, none, some, if◌then◌else◌, ◌==◌, ◌&&◌,
}
use libjustasic.Flags.{Outcome, ok, ◌>>=◌, Bits, set_flag, set_flags, remove_flag, has_flag}
use libjustasic.Socket.{
  Socket, SocketCall, Event, on_connect, on_error, update_socket, Probe, optval, construct,
  with_flags, notify, ss_dead, ss_connecting, ss_connected, ss_accepting, ss_accepted, mx_writable,
}

-- `!getsockopt(...) && !optval`
abbrev pub is_clear : Probe → Bool
is_clear none = false
is_clear (some e) = e == 0

-- `ConnectionSocket(bool ipv6) : Socket(-1, ipv6)`: the flag goes where the constructor takes the
-- address family; the protocol is `SOCK_STREAM` by default.
pub connection_socket : ℕ → (SocketCall → ℕ) → Bool → Outcome Socket
connection_socket size socket ipv6 = construct size socket none (if ipv6 then 1 else 0) 1

-- The connected branch of `ConnectionSocket::MultiplexEvent`.
unfoldable pub finish_connect : Probe → Socket → Outcome Socket
finish_connect p s =
    if is_clear p
    then (do
      s' ← with_flags s (do f ← remove_flag s.flags ss_connecting; set_flag f ss_connected)
      ok (notify on_connect s'))
    else with_flags (notify (on_error (optval p)) s) (set_flag s.flags ss_dead)

-- `ConnectionSocket::MultiplexEvent`, with its result.
unfoldable pub connection_event : Probe → Socket → Outcome (Socket × Bool)
connection_event p s = do
  connected ← has_flag s.flags ss_connected
  if connected then ok (s, true) else (do
    connecting ← has_flag s.flags ss_connecting
    s' ← (if connecting then finish_connect p s else with_flags s (set_flag s.flags ss_dead))
    ok (s', false))

-- The answer of `::connect`: done, in progress, or another error.
pub data Connect : Type 0 where
  established in_progress : Connect
  refused : ℕ → Connect

-- The end of `ConnectionSocket::Connect`, once the address is converted.
unfoldable pub start_connect : Connect → Socket → Outcome Socket
start_connect established s = do
  s' ← with_flags s (set_flag s.flags ss_connected)
  ok (notify on_connect s')
start_connect in_progress s = do
  s' ← with_flags s (set_flags s.flags (ss_connecting ∷ mx_writable ∷ []))
  ok (notify update_socket s')
start_connect (refused e) s = ok (notify (on_error e) s)

-- `ClientSocket(ls, fd, addr, ipv6) : Socket(fd, false)`
pub client_socket : ℕ → (SocketCall → ℕ) → ℕ → Outcome Socket
client_socket size socket fd = do
  s ← construct size socket (some fd) 0 1
  with_flags s (set_flag s.flags ss_accepting)

-- `ClientSocket::MultiplexEvent`
unfoldable pub client_event : Socket → Outcome (Socket × Bool)
client_event s = do
  accepted ← has_flag s.flags ss_accepted
  if accepted then ok (s, true) else (do
    accepting ← has_flag s.flags ss_accepting
    s' ← with_flags s (
        if accepting
        then (do f ← set_flag s.flags ss_accepted; remove_flag f ss_accepting)
        else set_flag s.flags ss_dead)
    ok (s', false))
