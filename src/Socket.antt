-- ===== src/Socket.antt =====
-- The sockets of src/Socket.cpp and include/Socket.h. The system's calls enter by their answers.
-- A callback of a derived class is an event of the trace.
pub mod Address
pub mod Connection
pub mod Listening
pub mod Multiplexer
mod Tests
use libjustasic.Base.{
  ℕ, ◌+◌, ◌-◌, ◌≡◌, Bool, true, false, List, [], ◌∷◌, Option, none, some, if◌then◌else◌, bit_or,
  bit_and, bit_xor, ◌==◌,
}
use libjustasic.Base.Text.{Bytes}
use libjustasic.Flags.{
  Outcome, ok, ◌>>=◌, Bits, no_flags, default_size, set_flag, set_flags, remove_flag, has_flag,
}

-- `socketstatus_t`: the values are powers of two, and `Flags` takes them as positions of bits.
abbrev pub ss_dead : ℕ
ss_dead = 2

abbrev pub ss_writable : ℕ
ss_writable = 4

abbrev pub ss_connecting : ℕ
ss_connecting = 8

abbrev pub ss_connected : ℕ
ss_connected = 16

abbrev pub ss_accepting : ℕ
ss_accepting = 32

abbrev pub ss_accepted : ℕ
ss_accepted = 64

abbrev pub mx_writable : ℕ
mx_writable = 128

abbrev pub mx_readable : ℕ
mx_readable = 256

-- What the callbacks and the multiplexer are told.
pub data Event : Type 0 where
  add_socket update_socket remove_socket : Event
  on_connect on_accept : Event
  on_error : ℕ → Event
  close : ℕ → Event

pub record Socket : Type 0 where
  pub flags : Bits
  pub sock_fd : ℕ
  pub events : List Event

-- `SetNonBlocking` on the descriptor's flag word: `flags & ~O_NONBLOCK` is written with `^`.
pub set_non_blocking : ℕ → Bool → ℕ → ℕ
set_non_blocking o_nonblock status flags =
    if status then bit_or flags o_nonblock else bit_xor flags (bit_and flags o_nonblock)

-- `::socket(type, protocol, 0)`: the first argument is an address family.
pub record SocketCall : Type 0 where
  pub domain : ℕ
  pub kind : ℕ
  pub protocol : ℕ

-- The `Socket` constructor over the size of the flag set and the kernel's answer to `::socket`.
-- A descriptor of `none` is `-1`.
pub construct : ℕ → (SocketCall → ℕ) → Option ℕ → ℕ → ℕ → Outcome Socket
construct size socket sock type protocol = do
  flags ← set_flags (no_flags size) (mx_readable ∷ mx_writable ∷ [])
  ok (record { flags = flags; sock_fd = fd sock; events = update_socket ∷ add_socket ∷ [] })
  where
    fd : Option ℕ → ℕ
    fd none = socket (record { domain = type; kind = protocol; protocol = 0 })
    fd (some n) = n

-- The destructor.
pub destruct : Socket → Socket
destruct s = record s { events = close s.sock_fd ∷ remove_socket ∷ s.events }

-- `Write` over the answer of `::send`; a null pointer is `none`.
pub write : (Bytes → ℕ → ℕ) → Option Bytes → ℕ → ℕ
write send none len = 0
write send (some data_) len = if len == 0 then 0 else send data_ len

-- The answer of `getsockopt(SO_ERROR)`: `none` when the call fails, which leaves `optval` at 0.
abbrev pub Probe : Type 0
Probe = Option ℕ

abbrev pub optval : Probe → ℕ
optval none = 0
optval (some e) = e

-- `ConnectionSocket::MultiplexError` and `ClientSocket::MultiplexError`; `on_error 0` stands for
-- the empty message.
unfoldable pub multiplex_error : Probe → Socket → Socket
multiplex_error p s = record s { events = on_error (optval p) ∷ s.events }

-- Store new flags.
abbrev pub with_flags : Socket → Outcome Bits → Outcome Socket
with_flags s f = do flags ← f; ok (record s { flags = flags })

abbrev pub notify : Event → Socket → Socket
notify e s = record s { events = e ∷ s.events }
