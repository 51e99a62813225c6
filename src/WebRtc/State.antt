-- ===== src/WebRtc/State.antt =====
-- `WebRtcServer` of src/web/webrtc.rs: the peers of the room, and the signals that wait for them.
-- Each method takes the lock, so it is one step on the state; the time of the call is an argument.
use ii.Prelude.{
  ℕ, ◌+◌, ◌-◌, ◌*◌, Bool, true, false, Option, none, some, List, [], ◌∷◌, ◌++◌, if◌then◌else◌, ltb,
  leb, ◌==◌, length, Result, ok, err,
}
use ii.Prelude.Text.{Bytes}
use ii.Prelude.Number.{max_u64}

pub record WebRtcSignal : Type 0 where
  pub from : ℕ
  pub body : Bytes

pub record WebRtcPeer : Type 0 where
  pub last_seen : ℕ
  pub signals : List WebRtcSignal

-- The BTreeMap: entries in the order of their keys.
abbrev pub WebRtcPeers : Type 0
WebRtcPeers = List (ℕ × WebRtcPeer)

pub record WebRtcState : Type 0 where
  pub next_peer_id : ℕ
  pub peers : WebRtcPeers

pub data WebRtcRelayError : Type 0 where
  missing_peer queue_full : WebRtcRelayError

-- 30 seconds, in nanoseconds.
abbrev pub webrtc_peer_ttl : ℕ
webrtc_peer_ttl = 30 * 1_000_000_000

abbrev pub webrtc_max_pending_signals : ℕ
webrtc_max_pending_signals = 64

unfoldable pub get : ℕ → WebRtcPeers → Option WebRtcPeer
get id [] = none
get id ((i, peer) ∷ peers) = if i == id then some peer else get id peers

-- A write through `get_mut`.
unfoldable pub set : ℕ → WebRtcPeer → WebRtcPeers → WebRtcPeers
set id new [] = []
set id new ((i, peer) ∷ peers) = if i == id then (i, new) ∷ peers else (i, peer) ∷ set id new peers

unfoldable pub insert : ℕ → WebRtcPeer → WebRtcPeers → WebRtcPeers
insert id new [] = (id, new) ∷ []
insert id new ((i, peer) ∷ peers) =
    if ltb id i
    then (id, new) ∷ (i, peer) ∷ peers
    else if i == id
    then (id, new) ∷ peers
    else (i, peer) ∷ insert id new peers

unfoldable pub other_keys : ℕ → WebRtcPeers → List ℕ
other_keys id [] = []
other_keys id ((i, peer) ∷ peers) =
    let rest = other_keys id peers in if i == id then rest else i ∷ rest

-- What `retain` keeps.
unfoldable pub live : ℕ → WebRtcPeers → WebRtcPeers
live now [] = []
live now ((i, peer) ∷ peers) =
    let rest = live now peers in
    if ltb (now - peer.last_seen) webrtc_peer_ttl then (i, peer) ∷ rest else rest

unfoldable pub prune_webrtc_peers : WebRtcState → ℕ → WebRtcState
prune_webrtc_peers state now = record state { peers = live now state.peers }

-- `last_seen = now`.
abbrev pub seen : ℕ → ℕ → WebRtcPeer → WebRtcState → WebRtcState
seen now id peer state = record state {
  peers = set id (record peer { last_seen = now }) state.peers;
}

abbrev pub initial : WebRtcState
initial = record { next_peer_id = 1; peers = [] }

unfoldable pub join : ℕ → WebRtcState → WebRtcState × Option ℕ
join now before =
    let state = prune_webrtc_peers before now in
    let id = state.next_peer_id in
    if leb max_u64 id then (state, none) else (
      record {
        next_peer_id = id + 1;
        peers = insert id (record { last_seen = now; signals = [] }) state.peers;
      },
      some id,
    )

unfoldable pub peers : ℕ → ℕ → WebRtcState → WebRtcState × Option (List ℕ)
peers now id before =
    let state = prune_webrtc_peers before now in
    elim (get id state.peers) [
      | none ↦ (state, none)
      | some peer ↦ let after = seen now id peer state in (after, some (other_keys id after.peers))
    ]

unfoldable pub heartbeat : ℕ → ℕ → WebRtcState → WebRtcState × Bool
heartbeat now id before =
    let state = prune_webrtc_peers before now in
    elim (get id state.peers) [ none ↦ (state, false) | some peer ↦ (seen now id peer state, true) ]

unfoldable pub relay :
    ℕ → ℕ → ℕ → Bytes → WebRtcState → WebRtcState × Result (Unit {0}) WebRtcRelayError
relay now from to body before =
    let state = prune_webrtc_peers before now in
    elim (get from state.peers) [
      | none ↦ (state, err missing_peer)
      | some sender ↦
          let after = seen now from sender state in
          elim (get to after.peers) [
            | none ↦ (after, err missing_peer)
            | some recipient ↦
                let signal : WebRtcSignal = record { from = from; body = body } in
                let signals = recipient.signals ++ signal ∷ [] in
                if leb webrtc_max_pending_signals (length recipient.signals)
                then (after, err queue_full)
                else (
                  record after {
                    peers = set to (record recipient { signals = signals }) after.peers;
                  },
                  ok tt,
                )
          ]
    ]

-- `pop_front`.
abbrev pub pop_front :
    ℕ
    → ℕ
    → WebRtcPeer
    → WebRtcState
    → List WebRtcSignal
    → WebRtcState × Option (Option WebRtcSignal)
pop_front now id peer state [] = (seen now id peer state, some none)
pop_front now id peer state (signal ∷ signals) =
    (seen now id (record peer { signals = signals }) state, some (some signal))

unfoldable pub poll : ℕ → ℕ → WebRtcState → WebRtcState × Option (Option WebRtcSignal)
poll now id before =
    let state = prune_webrtc_peers before now in
    elim (get id state.peers) [
      | none ↦ (state, none)
      | some peer ↦ pop_front now id peer state peer.signals
    ]
