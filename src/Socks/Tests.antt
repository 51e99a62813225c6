-- ===== src/Socks/Tests.antt =====
-- Runs of src/service/socks5.rs after its own tests, and instances of the theorems.
use ii.Prelude.{
  ℕ, ◌≡◌, ◌↔◌, refl, true, Option, none, some, List, [], ◌∷◌, ◌++◌, All, if◌then◌else◌, drop, arith,
}
use ii.Prelude.Text.{Str, Bytes, codes}
use ii.Socks.Address.{
  SocketAddr, v4, socket, append_address, read_port, read_ip, read_domain, read_target, port_at,
  ip_at, domain_at, parse_udp_target, parse_udp_request, encode_udp_response, has_udp_header,
}
use ii.Socks.Session.{
  Credentials, accepted, refused, read_password, check_password, contains_byte, select_method,
  negotiate_auth, reply_code, write_reply, resolve_target, connect, connecting, serve_request,
  serve_connection,
}
use ii.Socks.Relay.{
  Datagram, Justified, resolve, outgoing, next_client, relay, relay_all, relay-Justified,
  bind_peer_matches, accept_peer,
}
use ii.Socks.RoundTrip.{parse_udp_request-read_target, parse_udp_request-encode_udp_response}
use ii.Socks.Access.{login, negotiate_auth_iff}

printer : Unit {0}
unfolding append_address read_port read_ip read_domain read_target port_at ip_at domain_at
    parse_udp_target parse_udp_request encode_udp_response read_password check_password
    contains_byte select_method negotiate_auth reply_code write_reply resolve_target connect
    serve_request serve_connection resolve outgoing next_client relay relay_all bind_peer_matches
    accept_peer
printer = tt

abbrev plain : Bytes → Option Str
plain bytes = some bytes

abbrev no_host : Str → ℕ → Option SocketAddr
no_host name port = none

abbrev alice : Credentials
alice = record { username = codes "alice"; password = codes "secret" }

-- A wrong password is refused.
wrong_password :
    negotiate_auth (some alice) (5 ∷ 1 ∷ 2 ∷ 1 ∷ 5 ∷ (codes "alice" ++ 6 ∷ codes "secreT"))
    ≡ refused (5 ∷ 2 ∷ 1 ∷ 1 ∷ [])
unfolding printer
wrong_password = refl

-- Without credentials a client that offers no authentication gets to its command.
connects :
    serve_connection plain none (5 ∷ 1 ∷ 0 ∷ 5 ∷ 1 ∷ 0 ∷ 1 ∷ 127 ∷ 0 ∷ 0 ∷ 1 ∷ 1 ∷ 187 ∷ [])
    ≡ connecting (5 ∷ 0 ∷ []) (socket (v4 (127 ∷ 0 ∷ 0 ∷ 1 ∷ []) 443))
unfolding printer
connects = refl

abbrev told : Bytes
told = 5 ∷ 2 ∷ 1 ∷ 0 ∷ []

negotiate_auth_iff_example :
    (negotiate_auth (some alice) (login alice (0 ∷ 2 ∷ []) (5 ∷ [])) ≡ accepted told (5 ∷ [])) ↔ (
      (methods : Bytes) × (login alice (0 ∷ 2 ∷ []) (5 ∷ []) ≡ login alice methods (5 ∷ []))
      × (contains_byte 2 methods ≡ true)
      × (told ≡ 5 ∷ 2 ∷ 1 ∷ 0 ∷ []))
negotiate_auth_iff_example =
    negotiate_auth_iff alice (login alice (0 ∷ 2 ∷ []) (5 ∷ [])) told (5 ∷ [])

abbrev source : SocketAddr
source = v4 (10 ∷ 0 ∷ 0 ∷ 7 ∷ []) 5353

parse_udp_request-encode_udp_response_example :
    parse_udp_request plain (encode_udp_response source (codes "pong"))
    ≡ some (socket source, codes "pong")
parse_udp_request-encode_udp_response_example =
    parse_udp_request-encode_udp_response plain source (codes "pong") (refl, omega arith)

abbrev ping : Bytes
ping = 0 ∷ 0 ∷ 0 ∷ 1 ∷ 10 ∷ 0 ∷ 0 ∷ 7 ∷ 20 ∷ 233 ∷ codes "ping"

parse_udp_request-read_target_example :
    parse_udp_request plain ping
    ≡ (if has_udp_header ping then read_target plain (drop 3 ping) else none)
parse_udp_request-read_target_example = parse_udp_request-read_target plain ping

abbrev control : SocketAddr
control = v4 (10 ∷ 0 ∷ 0 ∷ 1 ∷ []) 4000

abbrev client : SocketAddr
client = v4 (10 ∷ 0 ∷ 0 ∷ 1 ∷ []) 4001

abbrev datagrams : List Datagram
datagrams = (source, codes "early") ∷ (client, ping) ∷ (source, codes "pong") ∷ []

relayed : relay_all plain no_host control none datagrams ≡ (
  some client,
  ((client, ping), (source, codes "ping"))
      ∷ ((source, codes "pong"), (client, encode_udp_response source (codes "pong")))
      ∷ [],
)
unfolding printer
relayed = refl

relay-Justified_example :
    All
      (Justified plain no_host control (relay_all plain no_host control none datagrams).0)
      (relay_all plain no_host control none datagrams).1
relay-Justified_example = relay-Justified plain no_host control datagrams
