-- ===== src/Socket/Listening.antt =====
-- `ListeningSocket`: the constructor and `MultiplexRead`.
use libjustasic.Base.{
  ℕ, zero, suc, ◌+◌, ◌≡◌, ◌<◌, refl, Bool, true, false, Option, none, some, length, get_or, set,
  arith, length-set, ◌∙◌, subst, ap, sym,
}
use libjustasic.Base.Text.{Bytes, Lacks}
use libjustasic.Flags.{Outcome, ok, ◌>>=◌, set_flag, has_flag}
use libjustasic.Flags.Laws.{get_or-set, set_flag_in, has_flag_in, has_flag-set}
use libjustasic.Socket.{Socket, on_accept, notify, with_flags, ss_accepting, ss_accepted}
use libjustasic.Socket.Connection.{client_event}
use libjustasic.Socket.Address.{
  Pton, converted, invalid, unsupported, SockAddr, zeroed, overwrite, af_inet, af_inet6, Result,
  done, invalid_host, invalid_host_error, unable_to_listen, null_client,
}

module _ (inet_pton : ℕ → Bytes → Pton) (htons : ℕ → ℕ) where
  -- The address of one round. `inet_pton` is asked for an IPv4 address in both branches.
  unfoldable pub bind_address : Bytes → ℕ → Bool → Result SockAddr
  bind_address bindaddr port ipv6 = elim (inet_pton af_inet bindaddr) [
    | converted a ↦ done (elim ipv6 [
      | false ↦ record zeroed {
        family = af_inet;
        port = htons port;
        word = overwrite a zeroed.word;
      }
      | true ↦ record zeroed {
        family = af_inet6;
        port = htons port;
        long = overwrite a zeroed.long;
      }
    ])
    | invalid ↦ invalid_host
    | unsupported ↦ invalid_host_error
  ]

  -- The constructor from label `retry` on, over the answers of `::bind` to the rounds and of
  -- `::listen`; `none` when it is still retrying after `fuel` rounds.
  unfoldable pub listen_from :
      ℕ → (ℕ → Bool) → Bool → Bytes → ℕ → Bool → ℕ → Option (Result (SockAddr × ℕ))
  unfolding bind_address
  listen_from zero bind listen bindaddr port ipv6 round = none
  listen_from (suc fuel) bind listen bindaddr port ipv6 round =
      let rest = listen_from fuel bind listen bindaddr port ipv6 (suc round) in
      elim (bind_address bindaddr port ipv6) [
        | done sa ↦ elim (bind round) [
          | false ↦ rest
          | true ↦ elim listen [ true ↦ some (done (sa, round)) | false ↦ some unable_to_listen ]
        ]
        | invalid_host ↦ some invalid_host
        | invalid_host_error ↦ some invalid_host_error
        | unable_to_listen ↦ some unable_to_listen
        | null_client ↦ some null_client
      ]

-- `ListeningSocket::MultiplexRead` over the answers of `accept` and of the derived `OnAccept`.
pub multiplex_read : Option ℕ → (ℕ → Option Socket) → Outcome (Result (Option Socket))
multiplex_read none make = ok (done none)
multiplex_read (some newsock) make = elim (make newsock) [
  | none ↦ ok null_client
  | some cs ↦ do
    cs' ← with_flags cs (set_flag cs.flags ss_accepted)
    ok (done (some (notify on_accept cs')))
]

module _ (inet_pton : ℕ → Bytes → Pton) (htons : ℕ → ℕ) where
  module _ (bind : ℕ → Bool) (bindaddr : Bytes) (port : ℕ) (ipv6 : Bool) (sa : SockAddr)
      (a : bind_address inet_pton htons bindaddr port ipv6 ≡ done sa) where
    busy_round :
        (fuel round : ℕ)
        → bind round ≡ false
        → listen_from inet_pton htons (suc fuel) bind true bindaddr port ipv6 round
          ≡ listen_from inet_pton htons fuel bind true bindaddr port ipv6 (suc round)
    unfolding listen_from
    busy_round fuel round b = rw (a, listen_from) (rw b refl)

    free_round :
        (fuel round : ℕ)
        → bind round ≡ true
        → listen_from inet_pton htons (suc fuel) bind true bindaddr port ipv6 round
          ≡ some (done (sa, round))
    unfolding listen_from
    free_round fuel round b = rw (a, listen_from) (rw b refl)

    -- The constructor binds at the first round in which `::bind` succeeds, however late: it never
    -- gives up, and it needs that many rounds.
    pub listen_from-first :
        (k round : ℕ)
        → ((i : ℕ) → i < k → bind (round + i) ≡ false)
        → bind (round + k) ≡ true
        → (listen_from inet_pton htons (suc k) bind true bindaddr port ipv6 round
            ≡ some (done (sa, round + k)))
          × (listen_from inet_pton htons k bind true bindaddr port ipv6 round ≡ none)
    unfolding listen_from
    listen_from-first zero round before now = (
      free_round 0 round (subst (λ n. bind n ≡ true) (omega arith) now)
          ∙ ap (λ n. some (done (sa, n))) (omega arith),
      refl,
    )
    listen_from-first (suc k) round before now =
        let b : bind round ≡ false =
          subst (λ n. bind n ≡ false) (omega arith) (before 0 (omega arith)) in
        let (found, short) =
          listen_from-first k (suc round)
            (λ i l. subst (λ n. bind n ≡ false) (omega arith) (before (suc i) (omega arith)))
            (subst (λ n. bind n ≡ true) (omega arith) now) in
        (
          busy_round (suc k) round b ∙ found ∙ ap (λ n. some (done (sa, n))) (omega arith),
          busy_round k round b ∙ short,
        )

  -- No IPv6 address can be bound, since the constructor converts every text as an IPv4 address.
  pub listen_from-ipv6 :
      (bind : ℕ → Bool) (listen : Bool) (bindaddr : Bytes) (port fuel : ℕ)
      → ((s : Bytes) → ¬ Lacks b':' s → inet_pton af_inet s ≡ invalid)
      → ¬ Lacks b':' bindaddr
      → listen_from inet_pton htons (suc fuel) bind listen bindaddr port true 0 ≡ some invalid_host
  unfolding listen_from bind_address
  listen_from-ipv6 bind listen bindaddr port fuel rejects h =
      let r = rejects bindaddr h in
      let a : bind_address inet_pton htons bindaddr port true ≡ invalid_host =
        rw (r, bind_address) refl in
      rw (a, listen_from) refl

-- A client that `OnAccept` makes, where the flag set holds all flags, is accepted at once: its first
-- event finds it accepted, and so the flag `SS_ACCEPTING` is never taken away.
multiplex_read-accepted :
    (fd : ℕ) (make : ℕ → Option Socket) (cs : Socket)
    → make fd ≡ some cs
    → ss_accepted < length cs.flags
    → has_flag cs.flags ss_accepting ≡ ok true
    → (cs' : Socket) × (multiplex_read (some fd) make ≡ ok (done (some cs')))
      × (client_event cs' ≡ ok (cs', true))
      × (has_flag cs'.flags ss_accepting ≡ ok true)
unfolding multiplex_read client_event
multiplex_read-accepted fd make cs made h accepting =
    let size = length-set cs.flags ss_accepted true in
    let on : get_or cs.flags ss_accepting false ≡ true =
      let e = sym (has_flag_in cs.flags ss_accepting (omega arith)) ∙ accepting in cc in
    (
      notify on_accept (record cs { flags = set cs.flags ss_accepted true }),
      rw (made, multiplex_read) (rw (set_flag_in cs.flags ss_accepted h) refl),
      rw (has_flag-set cs.flags ss_accepted h) refl,
      rw
          (
            has_flag_in (set cs.flags ss_accepted true) ss_accepting (omega arith),
            get_or-set cs.flags ss_accepted ss_accepting true h,
          )
          (ap ok on),
    )
