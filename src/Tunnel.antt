-- ===== src/Tunnel.antt =====
-- The tunnel of src/service/tunnel.rs: the authentication of a stream, the limit on connections, and
-- the choice of a port. The streams of the iroh library give bytes; whether the target accepts a
-- connection, and whether a port can be bound, are answers of the system.
pub mod Admission
pub mod Ports
mod Tests
use ii.Prelude.{
  ℕ, ◌+◌, ◌-◌, suc, zero, Bool, true, false, Option, none, some, List, [], ◌∷◌, ◌++◌, if◌then◌else◌,
  leb, ltb, ◌==◌, length, take, drop, Result, ok, err,
}
use ii.Prelude.Text.{Str, Bytes, codes, str_eq}
use ii.Prelude.Number.{to_string, max_u16}

abbrev pub tunnel_auth_prefix : Bytes
tunnel_auth_prefix = codes "IITN" ++ 1 ∷ []

abbrev pub tunnel_auth_len : ℕ
tunnel_auth_len = 37

abbrev tunnel_status_ok : ℕ
tunnel_status_ok = 1

abbrev tunnel_status_rejected : ℕ
tunnel_status_rejected = 2

abbrev tunnel_status_busy : ℕ
tunnel_status_busy = 3

abbrev tunnel_max_connections : ℕ
tunnel_max_connections = 64

-- What `connect_tunnel_stream` sends first.
unfoldable pub tunnel_auth : Bytes → Bytes
tunnel_auth access_key = tunnel_auth_prefix ++ access_key

-- `read_exact` of the authentication, and its two comparisons; what follows is forwarded.
unfoldable pub check_auth : Bytes → Bytes → Option Bytes
check_auth access_key recv =
    if ltb (length recv) tunnel_auth_len
    then none
    else let auth = take tunnel_auth_len recv in
      if str_eq (take 5 auth) tunnel_auth_prefix
      then (if str_eq (drop 5 auth) access_key then some (drop tunnel_auth_len recv) else none)
      else none

-- How a stream ends up: refused with a status, or forwarded from the given bytes on. `contacted`
-- tells that the target has been contacted.
pub data StreamOutcome : Type 0 where
  turned_away : ℕ → StreamOutcome
  unreachable : StreamOutcome
  forwarding : Bytes → StreamOutcome

abbrev pub contacted : StreamOutcome → Bool
contacted (turned_away status) = false
contacted unreachable = true
contacted (forwarding bytes) = true

abbrev pub is_forwarding : StreamOutcome → Bool
is_forwarding (forwarding bytes) = true
is_forwarding (turned_away status) = false
is_forwarding unreachable = false

-- The first byte that is sent back.
abbrev status_of : StreamOutcome → ℕ
status_of (turned_away status) = status
status_of unreachable = tunnel_status_rejected
status_of (forwarding bytes) = tunnel_status_ok

-- What follows the check: the permit, and the target.
unfoldable pub admit : Bool → ℕ → Option Bytes → ℕ × StreamOutcome
admit target_accepts permits none = (permits, turned_away tunnel_status_rejected)
admit target_accepts permits (some bytes) =
    if permits == 0
    then (permits, turned_away tunnel_status_busy)
    else if target_accepts
    then (permits - 1, forwarding bytes)
    else (permits, unreachable)

-- The permits that are left while the stream is served, and its outcome.
unfoldable pub serve_tunnel_stream : Bytes → Bool → Bytes → ℕ → ℕ × StreamOutcome
unfolding check_auth admit
serve_tunnel_stream access_key target_accepts recv permits =
    admit target_accepts permits (check_auth access_key recv)

-- What the client does with the first byte: `none` goes on to forward.
unfoldable pub connect_status : Option ℕ → Option Str
connect_status none = some (codes "read tunnel status")
connect_status (some status) =
    if status == tunnel_status_ok
    then none
    else if status == tunnel_status_busy
    then some (codes "tunnel has reached its 64 connection limit")
    else some (codes "tunnel authentication or target connection was rejected")

-- The loop of `bind_tunnel_listener_from` over the ports from `port` on, of which there are `n`.
bind_first : (ℕ → Bool) → ℕ → ℕ → Option ℕ
bind_first can_bind zero port = none
bind_first can_bind (suc n) port =
    let rest = bind_first can_bind n (port + 1) in if can_bind port then some port else rest

unfoldable pub bind_tunnel_listener_from : (ℕ → Bool) → ℕ → Result ℕ Str
unfolding bind_first
bind_tunnel_listener_from can_bind start_port =
    elim (bind_first can_bind (max_u16 + 1 - start_port) start_port) [
      | some port ↦ ok port
      | none ↦ err (
          codes "no available tunnel listen port from 127.0.0.1:"
          ++ to_string start_port
          ++ codes " to 127.0.0.1:65535")
    ]
