-- ===== src/WebRtc/Bounds.antt =====
-- What the server of src/web/webrtc.rs can be made to store.
use ii.Prelude.{
  ℕ, ◌-◌, ◌≤◌, ◌<◌, ◌≡◌, zero, suc, refl, Bool, true, false, Option, none, some, List, [], ◌∷◌,
  ◌++◌, ltb, ◌==◌, length, length-append, take, arith, Bool-cases, Option-cases, Result-cases, inl,
  inr, Result, ok, err,
}
use ii.Prelude.Text.{Str, Bytes, codes, str_eq}
use ii.Http.Request.{WebRequest, web_token_path}
use ii.Http.Parser.{Reads, read_web_request}
use ii.WebRtc.State.{
  WebRtcSignal, WebRtcState, WebRtcRelayError, missing_peer, queue_full, initial, join, peers,
  heartbeat, relay, poll,
}
use ii.WebRtc.Query.{webrtc_single_peer_path, webrtc_signal_path}
use ii.WebRtc.Server.{
  webrtc_max_signal_bytes, read_to_end, read_webrtc_signal_body, serve_get, accept_body,
  serve_signal, serve_post, serve_request, serve_connection, peers_reply, poll_reply, join_reply,
  heartbeat_reply, relay_reply,
}
use ii.WebRtc.Calls.{IsValid, step, step-IsValid, joins, lists, beats, polls, relays}

length-take_le : (n : ℕ) (xs : Bytes) → length (take n xs) ≤ length xs
length-take_le zero xs = omega arith
length-take_le (suc n) [] = omega arith
length-take_le (suc n) (x ∷ xs) = omega (arith, length-take_le n xs)

read_to_end_grows :
    (n : ℕ) (reads : Reads) (body all : Bytes)
    → read_to_end n reads body ≡ some all
    → length body ≤ length all
unfolding read_to_end
read_to_end_grows zero reads body all h = ground arith
read_to_end_grows (suc n) [] body all h = ground arith
read_to_end_grows (suc n) (none ∷ reads) body all h = absurd (ground arith)
read_to_end_grows (suc n) (some [] ∷ reads) body all h = ground arith
read_to_end_grows (suc n) (some (c ∷ chunk) ∷ reads) body all h = omega (
  arith,
  read_to_end_grows (n - length chunk) reads (body ++ take (suc n) (c ∷ chunk)) all h,
  length-append body (take (suc n) (c ∷ chunk)),
)

-- A body that is read has the length that the request has announced.
length-read_webrtc_signal_body :
    (reads : Reads) (content_length : ℕ) (body all : Bytes)
    → read_webrtc_signal_body reads content_length body ≡ ok all
    → length all ≡ content_length
unfolding read_webrtc_signal_body
length-read_webrtc_signal_body reads n body all h =
    ground (arith, read_to_end_grows (n - length body) reads body all)

-- An answer leaves the state that the method has left.
peers_reply_state : (r : WebRtcState × Option (List ℕ)) → (peers_reply r).0 ≡ r.0
peers_reply_state (state, none) = refl
peers_reply_state (state, some ids) = refl

poll_reply_state : (r : WebRtcState × Option (Option WebRtcSignal)) → (poll_reply r).0 ≡ r.0
poll_reply_state (state, none) = refl
poll_reply_state (state, some none) = refl
poll_reply_state (state, some (some signal)) = refl

join_reply_state : (r : WebRtcState × Option ℕ) → (join_reply r).0 ≡ r.0
join_reply_state (state, none) = refl
join_reply_state (state, some id) = refl

heartbeat_reply_state : (r : WebRtcState × Bool) → (heartbeat_reply r).0 ≡ r.0
heartbeat_reply_state (state, true) = refl
heartbeat_reply_state (state, false) = refl

relay_reply_state : (r : WebRtcState × Result (Unit {0}) WebRtcRelayError) → (relay_reply r).0 ≡ r.0
relay_reply_state (state, ok done) = refl
relay_reply_state (state, err missing_peer) = refl
relay_reply_state (state, err queue_full) = refl

module _ (is_utf8 : Bytes → Bool) where
  -- A body of a byte up to 128 KiB, of UTF-8.
  abbrev pub Stored : WebRtcSignal → Type 0
  Stored signal =
      (0 < length signal.body)
      × (length signal.body ≤ webrtc_max_signal_bytes)
      × (is_utf8 signal.body ≡ true)

  kept : (s t : WebRtcState) → t ≡ s → IsValid Stored s → IsValid Stored t
  kept s t e v = rw e v

  accepted-IsValid :
      (now from to : ℕ) (body : Bytes) (reads : Reads) (n : ℕ) (s : WebRtcState)
      → 0 < n
      → n ≤ webrtc_max_signal_bytes
      → IsValid Stored s
      → IsValid Stored (accept_body is_utf8 now from to (read_webrtc_signal_body reads n body) s).0
  unfolding accept_body
  accepted-IsValid now from to body reads n s lo hi v =
      elim (Result-cases (read_webrtc_signal_body reads n body)) [
        | inl (all, e) ↦ elim (Bool-cases (is_utf8 all)) [
          | inl text ↦
              let exact = length-read_webrtc_signal_body reads n body all e in
              let stored : Stored (record { from = from; body = all }) =
                (omega (arith, exact), omega (arith, exact), text) in
              rw (e, accept_body)
                (rw text (
                  kept _ _ (relay_reply_state (relay now from to all s))
                    (unfold step in step-IsValid Stored now (relays from to all) s stored v)))
          | inr binary ↦ rw (e, accept_body) (rw binary v)
        ]
        | inr (message, e) ↦ rw (e, accept_body) v
      ]

  serve_signal-IsValid :
      (now from to : ℕ) (request : WebRequest) (reads : Reads) (s : WebRtcState)
      → IsValid Stored s
      → IsValid Stored (serve_signal is_utf8 now from to request reads s).0
  unfolding serve_signal
  serve_signal-IsValid now from to request reads s v = elim (Option-cases request.content_length) [
    | inl e ↦ rw (e, serve_signal) v
    | inr (n, e) ↦
        rw (e, serve_signal)
          (elim (Bool-cases (n == 0)) [
            | inl missing ↦ rw missing v
            | inr some_bytes ↦ elim (Bool-cases (ltb webrtc_max_signal_bytes n)) [
              | inl large ↦ rw some_bytes (rw large v)
              | inr small ↦ rw some_bytes (
                  rw small (
                    accepted-IsValid now from to request.body reads n s (ground arith)
                      (ground arith) v))
            ]
          ])
  ]

  serve_get-IsValid :
      (now : ℕ) (path : Str) (s : WebRtcState)
      → IsValid Stored s
      → IsValid Stored (serve_get now path s).0
  unfolding serve_get step
  serve_get-IsValid now path s v =
      elim (Option-cases (webrtc_single_peer_path path (codes "peers"))) [
        | inr (id, e) ↦
            rw (e, serve_get)
              (kept _ _ (peers_reply_state (peers now id s))
                (step-IsValid Stored now (lists id) s tt v))
        | inl e ↦ elim (Option-cases (webrtc_single_peer_path path (codes "signal"))) [
          | inr (id, f) ↦
              rw (e, serve_get)
                (rw (f, serve_get)
                  (kept _ _ (poll_reply_state (poll now id s))
                    (step-IsValid Stored now (polls id) s tt v)))
          | inl f ↦ rw (e, serve_get) (rw (f, serve_get) v)
        ]
      ]

  serve_post-IsValid :
      (now : ℕ) (path : Str) (request : WebRequest) (reads : Reads) (s : WebRtcState)
      → IsValid Stored s
      → IsValid Stored (serve_post is_utf8 now path request reads s).0
  unfolding serve_post step
  serve_post-IsValid now path request reads s v = elim (Bool-cases (str_eq path (codes "join"))) [
    | inl e ↦
        rw (e, serve_post)
          (kept _ _ (join_reply_state (join now s)) (step-IsValid Stored now joins s tt v))
    | inr e ↦ elim (Option-cases (webrtc_single_peer_path path (codes "heartbeat"))) [
      | inr (id, f) ↦
          rw (e, serve_post)
            (rw (f, serve_post)
              (kept _ _ (heartbeat_reply_state (heartbeat now id s))
                (step-IsValid Stored now (beats id) s tt v)))
      | inl f ↦ elim (Option-cases (webrtc_signal_path path)) [
        | inr ((from, to), g) ↦
            rw (e, serve_post)
              (rw (f, serve_post)
                (rw (g, serve_post) (serve_signal-IsValid now from to request reads s v)))
        | inl g ↦ rw (e, serve_post) (rw (f, serve_post) (rw (g, serve_post) v))
      ]
    ]
  ]

  module _ (decode : Bytes → Option Str) (page : Str → Bytes) (client_ip : Str) where
    routed :
        (now : ℕ) (path : Str) (request : WebRequest) (reads : Reads) (s : WebRtcState)
        → IsValid Stored s
        → IsValid Stored (serve_request is_utf8 page client_ip now path request reads s).0
    unfolding serve_request
    routed now path request reads s v = elim (Bool-cases (str_eq request.method (codes "GET"))) [
      | inl g ↦ elim (Bool-cases (str_eq path [])) [
        | inl e ↦ rw (g, serve_request) (rw (e, serve_request) v)
        | inr e ↦ rw (g, serve_request) (rw (e, serve_request) (serve_get-IsValid now path s v))
      ]
      | inr g ↦ elim (Bool-cases (str_eq request.method (codes "POST"))) [
        | inl e ↦
            rw (g, serve_request)
              (rw (e, serve_request) (serve_post-IsValid now path request reads s v))
        | inr e ↦ rw (g, serve_request) (rw (e, serve_request) v)
      ]
    ]

    serve_connection-IsValid :
        (now : ℕ) (token : Option Str) (connection : Reads) (s : WebRtcState)
        → IsValid Stored s
        → IsValid Stored (serve_connection is_utf8 decode page client_ip now token connection s).0
    unfolding serve_connection
    serve_connection-IsValid now token connection s v =
        elim (Result-cases (read_web_request decode connection)) [
          | inr (message, e) ↦ rw (e, serve_connection) v
          | inl ((request, reads), e) ↦ elim (Option-cases (web_token_path token request.target)) [
            | inl f ↦ rw (e, serve_connection) (rw (f, serve_connection) v)
            | inr (path, f) ↦
                rw (e, serve_connection)
                  (rw (f, serve_connection) (routed now path request reads s v))
          ]
        ]

    -- The server through a sequence of connections, each with the time of its request.
    unfoldable pub serve_all : Option Str → List (ℕ × Reads) → WebRtcState → WebRtcState
    serve_all token [] s = s
    serve_all token ((now, connection) ∷ connections) s =
        serve_all token connections
          (serve_connection is_utf8 decode page client_ip now token connection s).0

    serve_from-IsValid :
        (token : Option Str) (connections : List (ℕ × Reads)) (s : WebRtcState)
        → IsValid Stored s
        → IsValid Stored (serve_all token connections s)
    unfolding serve_all
    serve_from-IsValid token [] s v = v
    serve_from-IsValid token ((now, connection) ∷ connections) s v =
        serve_from-IsValid token connections _ (serve_connection-IsValid now token connection s v)

    -- Whatever connections a fresh server gets, in whatever order and at whatever times, the peers
    -- of its table have distinct ids from 1 to below the next one to give, at most 64 signals wait
    -- for each of them, and each signal is UTF-8 text of 1 byte up to 128 KiB.
    pub serve_all-IsValid :
        (token : Option Str) (connections : List (ℕ × Reads))
        → IsValid Stored (serve_all token connections initial)
    serve_all-IsValid token connections =
        serve_from-IsValid token connections initial (omega arith, tt)
