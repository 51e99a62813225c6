-- ===== src/WebRtc/Tests.antt =====
-- Runs of the signalling server of src/web/webrtc.rs, and instances of the theorems.
use ii.Prelude.{ℕ, ◌≡◌, refl, Bool, true, Option, none, some, List, [], ◌∷◌, ◌++◌, arith}
use ii.Prelude.Text.{Str, Bytes, codes}
use ii.Prelude.Number.{parse_uint}
use ii.Http.Parser.{Reads}
use ii.WebRtc.State.{
  WebRtcSignal, WebRtcPeer, WebRtcState, initial, get, set, insert, other_keys, live,
  prune_webrtc_peers, join, peers, heartbeat, relay, poll,
}
use ii.WebRtc.Query.{parse_webrtc_peer_id, webrtc_signal_path}
use ii.WebRtc.Calls.{Call, joins, polls, relays, step, run, IsValid}
use ii.WebRtc.Waiting.{all_accepted, all_delivered}
use ii.WebRtc.Delivery.{run_delivers}
use ii.WebRtc.Bounds.{Stored, serve_all, serve_all-IsValid}

abbrev idle : ℕ → WebRtcPeer
idle now = record { last_seen = now; signals = [] }

abbrev two_peers : WebRtcState
two_peers = record { next_peer_id = 3; peers = (1, idle 0) ∷ (2, idle 0) ∷ [] }

room : Unit {0}
unfolding get set insert other_keys live prune_webrtc_peers join peers heartbeat relay poll step run
room = tt

joins_give_ids : run ((0, joins) ∷ (0, joins) ∷ []) initial ≡ two_peers
unfolding room get set insert live prune_webrtc_peers join step run
joins_give_ids = refl

abbrev hello : WebRtcSignal
hello = record { from = 1; body = codes "hello" }

abbrev calls : List (ℕ × Call)
calls = (5, relays 1 2 (codes "hello")) ∷ (6, polls 2) ∷ (7, relays 1 2 (codes "hello")) ∷ []

abbrev waiting : WebRtcPeer
waiting = record { last_seen = 6; signals = hello ∷ [] }

still_there : get 2 (run calls two_peers).peers ≡ some waiting
unfolding get set insert live prune_webrtc_peers relay poll step run
still_there = refl

both_there : get 2 two_peers.peers ≡ some (idle 0)
unfolding get
both_there = refl

-- After 30 seconds without a call a peer is gone.
peers_expire : (poll 30_000_000_000 1 two_peers).1 ≡ none
unfolding get live prune_webrtc_peers poll
peers_expire = refl

run_delivers_example :
    all_delivered 2 calls two_peers ++ hello ∷ [] ≡ [] ++ all_accepted 2 calls two_peers
run_delivers_example =
    run_delivers 2 calls two_peers (idle 0) waiting (omega arith) both_there still_there

signal_path_read : webrtc_signal_path (codes "signal?to=2&from=1") ≡ some (1, 2)
unfolding webrtc_signal_path parse_webrtc_peer_id parse_uint
signal_path_read = refl

signal_path_to_self : webrtc_signal_path (codes "signal?to=1&from=1") ≡ none
unfolding webrtc_signal_path parse_webrtc_peer_id parse_uint
signal_path_to_self = refl

abbrev any_text : Bytes → Bool
any_text bytes = true

abbrev plain : Bytes → Option Str
plain bytes = some bytes

abbrev page : Str → Bytes
page client_ip = codes "<p>" ++ client_ip

abbrev connections : List (ℕ × Reads)
connections =
    (0, some (codes "POST /join HTTP/1.1\r\n\r\n") ∷ [])
    ∷ (1, some (codes "POST /join HTTP/1.1\r\n\r\n") ∷ [])
    ∷ (2, some (codes "POST /signal?from=1&to=2 HTTP/1.1\r\nContent-Length: 2\r\n\r\nhi") ∷ [])
    ∷ []

serve_all-IsValid_example :
    IsValid (Stored any_text) (serve_all any_text plain page [] none connections initial)
serve_all-IsValid_example = serve_all-IsValid any_text plain page [] none connections
