-- ===== src/Socket/Multiplexer.antt =====
-- `SocketMultiplexer` of src/SocketMultiplexer.cpp: the search, and the stubs that the socket
-- engines replace.
use libjustasic.Base.{
  ℕ, ◌≡◌, ◌≢◌, ◌⊎◌, inl, inr, refl, Bool, false, List, [], ◌∷◌, ◌++◌, Option, none, some,
  if◌then◌else◌, ◌==◌, arith, All, Bool-cases, ==_iff, ap,
}
use libjustasic.Socket.{Socket}

unfoldable pub find_socket : List Socket → ℕ → Option Socket
find_socket [] sock_fd = none
find_socket (it ∷ sockets) sock_fd =
    if it.sock_fd == sock_fd then some it else find_socket sockets sock_fd

-- `AddSocket`, `RemoveSocket` and `UpdateSocket`: the list after the call, and the answer.
pub add_socket : List Socket → Socket → List Socket × Bool
add_socket sockets s = (sockets, false)

pub remove_socket : List Socket → Socket → List Socket × Bool
remove_socket sockets s = (sockets, false)

pub update_socket : List Socket → Socket → List Socket × Bool
update_socket sockets s = (sockets, false)

-- `FindSocket` gives the first socket with the descriptor, and null only if there is none.
find_socket_lem :
    (sockets : List Socket) (sock_fd : ℕ)
    → ((find_socket sockets sock_fd ≡ none) × All (λ s. s.sock_fd ≢ sock_fd) sockets)
      ⊎ ((before after : List Socket) × (s : Socket) × (find_socket sockets sock_fd ≡ some s)
          × (sockets ≡ before ++ s ∷ after)
          × All (λ s. s.sock_fd ≢ sock_fd) before
          × (s.sock_fd ≡ sock_fd))
unfolding find_socket
find_socket_lem [] sock_fd = inl (refl, tt)
find_socket_lem (it ∷ sockets) sock_fd = elim (Bool-cases (it.sock_fd == sock_fd)) [
  | inl e ↦ inr ([], sockets, it, rw e refl, refl, tt, (==_iff it.sock_fd sock_fd).0 e)
  | inr e ↦
      let ne : it.sock_fd ≢ sock_fd = λ q. absurd (ground (arith, e, q)) in
      elim (find_socket_lem sockets sock_fd) [
        | inl (no_one, all) ↦ inl (rw e no_one, (ne, all))
        | inr (before, after, s, found, cut, all, q) ↦
            inr (it ∷ before, after, s, rw e found, ap (◌∷◌ it) cut, (ne, all), q)
      ]
]
