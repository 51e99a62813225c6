-- ===== src/Discovery.antt =====
-- The discovery of services on the local network: src/discovery.rs. Serialization of packets is a
-- parameter; the sockets give the datagrams as events and take what is sent. A socket address is a
-- text.
pub mod Nonces
pub mod Found
mod Tests
use ii.Prelude.{
  ℕ, ◌+◌, ◌*◌, Bool, ◌&&◌, Option, none, some, List, [], ◌∷◌, ◌++◌, if◌then◌else◌, ltb, leb, ◌==◌,
  length, or_else, and_then, is_some_and,
}
use ii.Prelude.Text.{Str, Bytes, codes, str_eq, strip_prefix}

pub data Service : Type 0 where
  send : Str → Str → Str → Option ℕ → Service
  web : Str → Service
  dav : Str → Service
  http : Str → Str → Service

pub data Packet : Type 0 where
  announce : ℕ → Packet
  query : ℕ → ℕ → Packet
  response : ℕ → ℕ → Service → Packet

abbrev pub max_packet : ℕ
max_packet = 16 * 1024

abbrev magic : Bytes
magic = codes "IID1"

-- postcard.
pub record PacketFormat : Type 0 where
  pub to_stdvec : Packet → Option Bytes
  pub from_bytes : Bytes → Option Packet

-- What is waited for of a peer and an id: the nonce of the last query.
abbrev pub Pending : Type 0
Pending = List ((Str × ℕ) × ℕ)

abbrev pub Services : Type 0
Services = List (ℕ × Service)

pub record Discovery : Type 0 where
  pub pending : Pending
  pub services : Services

-- A datagram from a peer, with the nonce that the random generator gives if one is needed.
pub record Datagram : Type 0 where
  pub nonce : ℕ
  pub bytes : Bytes
  pub peer : Str

unfoldable pub get_pending : Str → ℕ → Pending → Option ℕ
get_pending peer id [] = none
get_pending peer id (((p, i), nonce) ∷ pending) =
    if str_eq p peer && i == id then some nonce else get_pending peer id pending

unfoldable pub insert_pending : Str → ℕ → ℕ → Pending → Pending
insert_pending peer id nonce [] = ((peer, id), nonce) ∷ []
insert_pending peer id nonce (((p, i), old) ∷ pending) =
    if str_eq p peer && i == id
    then ((p, i), nonce) ∷ pending
    else ((p, i), old) ∷ insert_pending peer id nonce pending

unfoldable pub get_service : ℕ → Services → Option Service
get_service id [] = none
get_service id ((i, service) ∷ services) = if i == id then some service else get_service id services

-- The BTreeMap keeps its entries in the order of their ids.
unfoldable pub insert_service : ℕ → Service → Services → Services
insert_service id service [] = (id, service) ∷ []
insert_service id service ((i, old) ∷ services) =
    if i == id
    then (id, service) ∷ services
    else if ltb id i
    then (id, service) ∷ (i, old) ∷ services
    else (i, old) ∷ insert_service id service services

unfoldable pub into_values : Services → List Service
into_values [] = []
into_values ((id, service) ∷ services) = service ∷ into_values services

module _ (format : PacketFormat) where
  unfoldable pub encode : Packet → Bytes
  encode packet = magic ++ or_else (format.to_stdvec packet) []

  unfoldable pub decode : Bytes → Option Packet
  decode bytes =
      if leb (length bytes) max_packet
      then and_then (strip_prefix magic bytes) format.from_bytes
      else none

  -- The state after a packet, and what is sent to the peer.
  unfoldable pub handle_decoded : Option Packet → ℕ → Str → Discovery → Discovery × Option Bytes
  handle_decoded (some (announce id)) nonce peer state = (
    record state { pending = insert_pending peer id nonce state.pending },
    some (encode (query id nonce)),
  )
  handle_decoded (some (response id nonce' service)) nonce peer state =
      if is_some_and (get_pending peer id state.pending) (λ n. n == nonce')
      then (record state { services = insert_service id service state.services }, none)
      else (state, none)
  handle_decoded (some (query id nonce')) nonce peer state = (state, none)
  handle_decoded none nonce peer state = (state, none)

  unfoldable pub handle_packet : Datagram → Discovery → Discovery × Option Bytes
  unfolding handle_decoded
  handle_packet d state = handle_decoded (decode d.bytes) d.nonce d.peer state

  -- The loop of `discover`: the datagrams until the deadline, or until a socket fails.
  unfoldable pub discover_loop : List Datagram → Discovery → Discovery
  discover_loop [] state = state
  discover_loop (d ∷ datagrams) state = discover_loop datagrams (handle_packet d state).0

  unfoldable pub discover : List Datagram → List Service
  unfolding discover_loop
  discover datagrams =
      into_values (discover_loop datagrams (record { pending = []; services = [] })).services

  -- What an advertiser sends back to the sender of a packet.
  unfoldable pub advertiser_reply : Service → ℕ → Bytes → Option Bytes
  advertiser_reply service id bytes = elim (decode bytes) [
    | some (query query_id nonce) ↦
        if query_id == id then some (encode (response id nonce service)) else none
    | some (announce other) ↦ none
    | some (response other nonce service') ↦ none
    | none ↦ none
  ]
