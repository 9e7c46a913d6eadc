-- ===== src/Socket/Address.antt =====
-- `GetAddress`, `GetPort` and `GetSockAddr` of `Socket`, and the address that `Connect` converts.
use libjustasic.Base.{
  ℕ, ◌≡◌, ◌≢◌, ◌<◌, ◌%◌, ◌⊎◌, inl, inr, refl, [], ◌++◌, if◌then◌else◌, ◌==◌, length, drop,
  replicate, arith, ap, ◌∙◌, Bool-cases, ℤ, negsuc, short, ne→==,
}
use libjustasic.Base.Text.{Bytes, codes}
use libjustasic.Flux.{find, is_found}
use libjustasic.Flags.{Outcome, ok, ◌>>=◌}
use libjustasic.Socket.{Socket}
use libjustasic.Socket.Connection.{Connect, start_connect}

-- The address families of Linux.
abbrev pub af_inet : ℕ
af_inet = 2

abbrev pub af_inet6 : ℕ
af_inet6 = 10

-- `sockaddr_t`: the family and the port lie at the same place in both structs; then come 4 bytes
-- (`sin_addr`, or `sin6_flowinfo`) and 16 bytes (`sin_zero`, or `sin6_addr`).
pub record SockAddr : Type 0 where
  pub family : ℕ
  pub port : ℕ
  pub word : Bytes
  pub long : Bytes

abbrev pub zeroed : SockAddr
zeroed = record { family = 0; port = 0; word = replicate 4 0; long = replicate 16 0 }

-- The answers 1, 0 and -1 of `inet_pton`, the first with the bytes that it writes.
pub data Pton : Type 0 where
  converted : Bytes → Pton
  invalid unsupported : Pton

-- `inet_pton` writes its bytes over the first ones of a field.
abbrev pub overwrite : Bytes → Bytes → Bytes
overwrite a field = a ++ drop (length a) field

-- What `Connect` and the listening socket throw.
pub data Result {ℓ} (A : Type ℓ) : Type ℓ where
  done : A → Result A
  invalid_host invalid_host_error unable_to_listen null_client : Result A

Pton-cases : (p : Pton) → ((a : Bytes) × (p ≡ converted a)) ⊎ ((p ≡ invalid) ⊎ (p ≡ unsupported))
Pton-cases (converted a) = inl (a, refl)
Pton-cases invalid = inr (inl refl)
Pton-cases unsupported = inr (inr refl)

module _ (inet_pton : ℕ → Bytes → Pton) (htons ntohs : ℕ → ℕ) where
  -- The case `AF_INET6`, which the case `AF_INET` runs on into.
  pub inet6_case : ℕ → Bytes → ℕ → SockAddr → SockAddr
  inet6_case type address port ret = elim (inet_pton type address) [
    | converted a ↦ record ret {
      family = type;
      port = htons (port % 65536);
      long = overwrite a ret.long;
    }
    | invalid ↦ ret
    | unsupported ↦ ret
  ]

  pub inet_case : ℕ → Bytes → ℕ → SockAddr → SockAddr
  unfolding inet6_case
  inet_case type address port ret = elim (inet_pton type address) [
    | converted a ↦
        inet6_case type address port
          (record ret { family = type; port = htons (port % 65536); word = overwrite a ret.word })
    | invalid ↦ ret
    | unsupported ↦ ret
  ]

  pub get_sock_addr : ℕ → Bytes → ℕ → SockAddr
  get_sock_addr type address port =
      if type == af_inet
      then inet_case type address port zeroed
      else if type == af_inet6
      then inet6_case type address port zeroed
      else zeroed

  pub get_port : SockAddr → ℤ
  get_port s =
      if s.family == af_inet
      then short (ntohs s.port)
      else if s.family == af_inet6
      then short (ntohs s.port)
      else negsuc 0

  -- `GetAddress` over `inet_ntop`, which is given the bytes of the family's field.
  pub get_address : (ℕ → Bytes → Bytes) → SockAddr → Bytes
  get_address inet_ntop saddr =
      if saddr.family == af_inet
      then inet_ntop af_inet saddr.word
      else if saddr.family == af_inet6
      then inet_ntop af_inet6 saddr.long
      else []

  -- `ConnectionSocket::Connect` over the answer of `::connect`.
  pub connect : Connect → Bytes → Socket → Outcome (Result Socket)
  connect answer conaddr s =
      elim (inet_pton (if is_found (find conaddr (codes ":") 0) then af_inet6 else af_inet)
        conaddr) [
          | converted a ↦ do s' ← start_connect answer s; ok (done s')
          | invalid ↦ ok invalid_host
          | unsupported ↦ ok invalid_host_error
        ]

  module _ (type : ℕ) (address : Bytes) (port : ℕ) (ret : SockAddr) where
    inet6_case_lem :
        (a : Bytes)
        → inet_pton type address ≡ converted a
        → inet6_case type address port ret
          ≡ record ret { family = type; port = htons (port % 65536); long = overwrite a ret.long }
    unfolding inet6_case
    inet6_case_lem a e = rw (e, inet6_case) refl

    inet_case_lem :
        (a : Bytes)
        → inet_pton type address ≡ converted a
        → inet_case type address port ret
          ≡ inet6_case type address port (record ret {
            family = type;
            port = htons (port % 65536);
            word = overwrite a ret.word;
          })
    unfolding inet_case
    inet_case_lem a e = rw (e, inet_case) refl

    kept :
        ((a : Bytes) → inet_pton type address ≢ converted a)
        → (inet6_case type address port ret ≡ ret) × (inet_case type address port ret ≡ ret)
    unfolding inet6_case inet_case
    kept never = elim (Pton-cases (inet_pton type address)) [
      | inl (a, e) ↦ absurd (never a e)
      | inr (inl e) ↦ (rw (e, inet6_case) refl, rw (e, inet_case) refl)
      | inr (inr e) ↦ (rw (e, inet6_case) refl, rw (e, inet_case) refl)
    ]

  -- The address that `GetSockAddr` makes.
  abbrev pub made : ℕ → Bytes → ℕ → SockAddr
  made type a port = record {
    family = type;
    port = htons (port % 65536);
    word = if type == af_inet then overwrite a (replicate 4 0) else replicate 4 0;
    long = overwrite a (replicate 16 0);
  }

  inet_lem :
      (address a : Bytes) (port : ℕ)
      → inet_pton af_inet address ≡ converted a
      → get_sock_addr af_inet address port ≡ made af_inet a port
  unfolding get_sock_addr
  inet_lem address a port e =
      inet_case_lem af_inet address port zeroed a e ∙ inet6_case_lem af_inet address port _ a e

  inet6_lem :
      (address a : Bytes) (port : ℕ)
      → inet_pton af_inet6 address ≡ converted a
      → get_sock_addr af_inet6 address port ≡ made af_inet6 a port
  unfolding get_sock_addr
  inet6_lem address a port e = inet6_case_lem af_inet6 address port zeroed a e

  no_address :
      (type : ℕ) (address : Bytes) (port : ℕ)
      → ((a : Bytes) → inet_pton type address ≢ converted a)
        ⊎ ((type ≢ af_inet) × (type ≢ af_inet6))
      → get_sock_addr type address port ≡ zeroed
  unfolding get_sock_addr
  no_address type address port (inl never) =
      let (six, four) = kept type address port zeroed never in
      elim (Bool-cases (type == af_inet)) [
        | inl t ↦ rw t four
        | inr t ↦
            rw t (elim (Bool-cases (type == af_inet6)) [ inl t' ↦ rw t' six | inr t' ↦ rw t' refl ])
      ]
  no_address type address port (inr (four, six)) =
      rw (ne→== type af_inet four) (rw (ne→== type af_inet6 six) refl)

  twice : (n : ℕ) → n % 65536 % 65536 ≡ n % 65536
  twice n = omega arith

  get_port-made :
      (type port : ℕ) (a : Bytes)
      → (type ≡ af_inet) ⊎ (type ≡ af_inet6)
      → ntohs (htons (port % 65536)) ≡ port % 65536
      → get_port (made type a port) ≡ short port
  unfolding get_port
  get_port-made type port a (inl t) e = rw t (rw (e, twice port) refl)
  get_port-made type port a (inr t) e = rw t (rw (e, twice port) refl)

  -- For an address of its family, `GetSockAddr` writes the converted bytes, and `GetPort` reads the
  -- port back as a `short`: one from 32768 on comes out negative. An IPv4 address is written over
  -- `sin_zero` too, since its case runs on into the next.
  pub get_port-get_sock_addr :
      (type : ℕ) (address a : Bytes) (port : ℕ)
      → ((n : ℕ) → n < 65536 → ntohs (htons n) ≡ n)
      → (type ≡ af_inet) ⊎ (type ≡ af_inet6)
      → inet_pton type address ≡ converted a
      → (get_sock_addr type address port ≡ made type a port)
        × (get_port (get_sock_addr type address port) ≡ short port)
  get_port-get_sock_addr type address a port swap t e =
      let m : get_sock_addr type address port ≡ made type a port = elim t [
        | inl t ↦ rw t (inet_lem address a port (rw t at e))
        | inr t ↦ rw t (inet6_lem address a port (rw t at e))
      ] in
      (m, ap get_port m ∙ get_port-made type port a t (swap (port % 65536) (omega arith)))

  -- When the text is no address of the family, or the family is neither of the two, `GetSockAddr`
  -- leaves the family 0 and `GetPort` answers -1.
  pub get_port-no_address :
      (type : ℕ) (address : Bytes) (port : ℕ)
      → ((a : Bytes) → inet_pton type address ≢ converted a)
        ⊎ ((type ≢ af_inet) × (type ≢ af_inet6))
      → (get_sock_addr type address port ≡ zeroed)
        × (get_port (get_sock_addr type address port) ≡ negsuc 0)
  unfolding get_port
  get_port-no_address type address port h =
      let z : get_sock_addr type address port ≡ zeroed = no_address type address port h in
      (z, ap get_port z)
