-- ===== src/Socks/Relay.antt =====
-- The commands BIND and UDP ASSOCIATE of src/service/socks5.rs: which peer a BIND takes, and the
-- loop that relays datagrams. Looking up a name is a parameter; `none` is an error.
use ii.Prelude.{
  ℕ, ◌≡◌, ◌⊎◌, refl, Bool, true, false, ◌&&◌, ◌||◌, Option, none, some, List, [], ◌∷◌, all, All,
  if◌then◌else◌, ◌==◌, and_then, Bool-cases, Option-cases, inl, inr,
}
use ii.Prelude.Text.{Str, Bytes, str_eq}
use ii.Socks.Address.{
  SocketAddr, v4, v6, TargetAddr, socket, domain, parse_udp_request, encode_udp_response,
}

abbrev same_ip : SocketAddr → SocketAddr → Bool
same_ip (v4 a p) (v4 b q) = str_eq a b
same_ip (v6 a p) (v6 b q) = str_eq a b
same_ip (v4 a p) (v6 b q) = false
same_ip (v6 a p) (v4 b q) = false

abbrev port_of : SocketAddr → ℕ
port_of (v4 a p) = p
port_of (v6 a p) = p

abbrev same_addr : SocketAddr → SocketAddr → Bool
same_addr a b = same_ip a b && port_of a == port_of b

abbrev is_zero : ℕ → Bool
is_zero b = b == 0

abbrev is_unspecified : SocketAddr → Bool
is_unspecified (v4 a p) = all is_zero a
is_unspecified (v6 a p) = all is_zero a

unfoldable pub bind_peer_matches : SocketAddr → SocketAddr → Bool
bind_peer_matches expected peer =
    (is_unspecified expected || same_ip expected peer)
    && (port_of expected == 0 || port_of expected == port_of peer)

-- The loop of `bind` over the connections that come: the first that matches.
unfoldable pub accept_peer : SocketAddr → List SocketAddr → Option SocketAddr
accept_peer expected [] = none
accept_peer expected (peer ∷ peers) =
    let rest = accept_peer expected peers in
    if bind_peer_matches expected peer then some peer else rest

-- A datagram that came, and one that was sent because of it.
abbrev pub Datagram : Type 0
Datagram = SocketAddr × Bytes

abbrev log : Datagram → Option Datagram → List (Datagram × Datagram) → List (Datagram × Datagram)
log received none sent = sent
log received (some datagram) sent = (received, datagram) ∷ sent

module _ (utf8_decode : Bytes → Option Str) (lookup_host : Str → ℕ → Option SocketAddr) where
  unfoldable pub resolve : TargetAddr → Option SocketAddr
  resolve (socket address) = some address
  resolve (domain name port) = lookup_host name port

  -- What a datagram of the client is sent on as.
  unfoldable pub outgoing : Bytes → Option Datagram
  outgoing packet =
      and_then (parse_udp_request utf8_decode packet)
        λ (target, payload). and_then (resolve target) λ address. some (address, payload)

  -- `client_udp` after a datagram.
  unfoldable pub next_client : SocketAddr → Option SocketAddr → SocketAddr → Option SocketAddr
  next_client control_peer none source = if same_ip source control_peer then some source else none
  next_client control_peer (some client) source = some client

  -- What is sent because of a datagram.
  unfoldable pub relay : Option SocketAddr → Datagram → Option Datagram
  relay none (source, packet) = none
  relay (some client) (source, packet) =
      if same_addr source client
      then outgoing packet
      else some (client, encode_udp_response source packet)

  -- The loop over the datagrams that come: the client at the end, and what is sent, beside what it
  -- was sent for.
  unfoldable pub relay_all :
      SocketAddr
      → Option SocketAddr
      → List Datagram
      → Option SocketAddr × List (Datagram × Datagram)
  relay_all control_peer client [] = (client, [])
  relay_all control_peer client ((source, packet) ∷ datagrams) =
      let next = next_client control_peer client source in
      let (final, sent) = relay_all control_peer next datagrams in
      (final, log (source, packet) (relay next (source, packet)) sent)

  -- A datagram is sent only for the client, which has the address of the control connection: either
  -- its own datagram goes where that asks for, or one of another source comes to it, wrapped up.
  abbrev pub Justified : SocketAddr → Option SocketAddr → Datagram × Datagram → Type 0
  Justified control_peer client (received, sent) =
      (c : SocketAddr) × (client ≡ some c)
      × (same_ip c control_peer ≡ true)
      × (((same_addr received.0 c ≡ true) × (outgoing received.1 ≡ some sent))
          ⊎ ((same_addr received.0 c ≡ false)
              × (sent ≡ (c, encode_udp_response received.0 received.1))))

  -- The client that is set has the address of the control connection.
  Owned : SocketAddr → Option SocketAddr → Type 0
  Owned control_peer none = Unit
  Owned control_peer (some c) = same_ip c control_peer ≡ true

  relay_all-some :
      (control_peer c : SocketAddr) (datagrams : List Datagram)
      → (relay_all control_peer (some c) datagrams).0 ≡ some c
  unfolding relay_all next_client
  relay_all-some control_peer c [] = refl
  relay_all-some control_peer c ((source, packet) ∷ datagrams) =
      relay_all-some control_peer c datagrams

  log-Justified :
      (control_peer c source : SocketAddr) (packet : Bytes) (final : Option SocketAddr)
      (sent : List (Datagram × Datagram))
      → final ≡ some c
      → same_ip c control_peer ≡ true
      → All (Justified control_peer final) sent
      → All
          (Justified control_peer final)
          (log (source, packet) (relay (some c) (source, packet)) sent)
  unfolding relay
  log-Justified control_peer c source packet final sent f o h =
      elim (Bool-cases (same_addr source c)) [
        | inr e ↦ rw (e, relay) ((c, f, o, inr (e, refl)), h)
        | inl e ↦ elim (Option-cases (outgoing packet)) [
          | inl g ↦ rw (e, g, relay) h
          | inr (datagram, g) ↦ rw (e, g, relay) ((c, f, o, inl (e, g)), h)
        ]
      ]

  relay_all-Justified :
      (control_peer : SocketAddr) (client : Option SocketAddr) (datagrams : List Datagram)
      → Owned control_peer client
      → All
          (Justified control_peer (relay_all control_peer client datagrams).0)
          (relay_all control_peer client datagrams).1
  unfolding relay_all relay next_client Owned
  relay_all-Justified control_peer client [] o = tt
  relay_all-Justified control_peer (some c) ((source, packet) ∷ datagrams) o =
      log-Justified control_peer c source packet (relay_all control_peer (some c) datagrams).0
        (relay_all control_peer (some c) datagrams).1 (relay_all-some control_peer c datagrams) o
        (relay_all-Justified control_peer (some c) datagrams o)
  relay_all-Justified control_peer none ((source, packet) ∷ datagrams) o =
      elim (Bool-cases (same_ip source control_peer)) [
        | inl e ↦
            rw (e, relay_all, next_client)
              (log-Justified control_peer source source packet
                (relay_all control_peer (some source) datagrams).0
                (relay_all control_peer (some source) datagrams).1
                (relay_all-some control_peer source datagrams) e
                (relay_all-Justified control_peer (some source) datagrams e))
        | inr e ↦
            rw (e, relay_all, next_client) (relay_all-Justified control_peer none datagrams tt)
      ]

  -- Whatever datagrams come to the relay of a connection, from whomever and in whatever order,
  -- there is one client, with the address of the control connection, for all that is sent: a
  -- datagram that is sent is one that this client asked for, or carries to this client what another
  -- source has sent, with the address of that source.
  pub relay-Justified :
      (control_peer : SocketAddr) (datagrams : List Datagram)
      → All
          (Justified control_peer (relay_all control_peer none datagrams).0)
          (relay_all control_peer none datagrams).1
  unfolding Owned
  relay-Justified control_peer datagrams = relay_all-Justified control_peer none datagrams tt
