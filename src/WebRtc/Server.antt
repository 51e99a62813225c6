-- ===== src/WebRtc/Server.antt =====
-- `serve_connection` of src/web/webrtc.rs. The page, the address that it shows, and the two UTF-8
-- decoders (for the head and for a body) are parameters.
use ii.Prelude.{
  ℕ, ◌-◌, ◌*◌, suc, zero, Bool, true, false, Option, none, some, List, [], ◌∷◌, ◌++◌, if◌then◌else◌,
  ltb, ◌==◌, length, take, Result, ok, err,
}
use ii.Prelude.Text.{Str, Bytes, codes, str_eq}
use ii.Prelude.Number.{to_string}
use ii.Http.Request.{WebRequest, web_token_path}
use ii.Http.Response.{Response, plain_text, write_web_response, write_web_error}
use ii.Http.Parser.{Reads, read_web_request}
use ii.WebRtc.State.{
  WebRtcSignal, WebRtcState, WebRtcRelayError, missing_peer, queue_full, join, peers, heartbeat,
  relay, poll,
}
use ii.WebRtc.Query.{webrtc_single_peer_path, webrtc_signal_path}

abbrev pub webrtc_max_signal_bytes : ℕ
webrtc_max_signal_bytes = 128 * 1024

-- `take(remaining).read_to_end`; `none` is a read that fails.
unfoldable pub read_to_end : ℕ → Reads → Bytes → Option Bytes
read_to_end zero reads body = some body
read_to_end (suc n) [] body = some body
read_to_end (suc n) (none ∷ reads) body = none
read_to_end (suc n) (some [] ∷ reads) body = some body
read_to_end (suc n) (some (c ∷ chunk) ∷ reads) body =
    read_to_end (n - length chunk) reads (body ++ take (suc n) (c ∷ chunk))

unfoldable pub read_webrtc_signal_body : Reads → ℕ → Bytes → Result Bytes Str
read_webrtc_signal_body reads content_length body =
    if ltb content_length (length body)
    then err (codes "signal body exceeds Content-Length")
    else let remaining = content_length - length body in
      elim (read_to_end remaining reads body) [
        | none ↦ err (codes "read signal body")
        | some all ↦
            if length all - length body == remaining
            then ok all
            else err (codes "signal body ended early")
      ]

abbrev json_text : Str
json_text = codes "application/json; charset=utf-8"

abbrev no_content : Response
no_content = write_web_response (codes "204 No Content") plain_text []

abbrev peer_not_found : Response
peer_not_found = write_web_error (codes "404 Not Found") (codes "peer not found")

abbrev not_found : Response
not_found = write_web_error (codes "404 Not Found") (codes "not found")

abbrev bad_request : Str → Response
bad_request message = write_web_error (codes "400 Bad Request") message

-- The rest of the list of peers: each id behind a comma.
unfoldable pub later_ids : List ℕ → Str
later_ids [] = []
later_ids (id ∷ ids) = b',' ∷ (to_string id ++ later_ids ids)

unfoldable pub json_ids : List ℕ → Str
unfolding later_ids
json_ids [] = codes "[]"
json_ids (id ∷ ids) = b'[' ∷ (to_string id ++ later_ids ids ++ codes "]")

abbrev Reply : Type 0
Reply = WebRtcState × Response

abbrev pub peers_reply : WebRtcState × Option (List ℕ) → Reply
peers_reply (state, none) = (state, peer_not_found)
peers_reply (state, some ids) =
    (state, write_web_response (codes "200 OK") json_text (json_ids ids))

abbrev pub poll_reply : WebRtcState × Option (Option WebRtcSignal) → Reply
poll_reply (state, none) = (state, peer_not_found)
poll_reply (state, some none) = (state, no_content)
poll_reply (state, some (some signal)) = (
  state,
  record {
    status = codes "200 OK";
    content_type = json_text;
    headers = codes "X-II-From: " ++ to_string signal.from ++ codes "\r\n";
    body = signal.body;
  },
)

abbrev pub join_reply : WebRtcState × Option ℕ → Reply
join_reply (state, none) =
    (state, write_web_error (codes "503 Service Unavailable") (codes "peer limit reached"))
join_reply (state, some id) =
    (state, write_web_response (codes "201 Created") plain_text (to_string id))

abbrev pub heartbeat_reply : WebRtcState × Bool → Reply
heartbeat_reply (state, true) = (state, no_content)
heartbeat_reply (state, false) = (state, peer_not_found)

abbrev pub relay_reply : WebRtcState × Result (Unit {0}) WebRtcRelayError → Reply
relay_reply (state, ok done) = (state, no_content)
relay_reply (state, err missing_peer) = (state, peer_not_found)
relay_reply (state, err queue_full) =
    (state, write_web_error (codes "429 Too Many Requests") (codes "signal queue is full"))

-- The requests by GET, behind the page.
unfoldable pub serve_get : ℕ → Str → WebRtcState → Reply
serve_get now path state = elim (webrtc_single_peer_path path (codes "peers")) [
  | some id ↦ peers_reply (peers now id state)
  | none ↦ elim (webrtc_single_peer_path path (codes "signal")) [
    | some id ↦ poll_reply (poll now id state)
    | none ↦ (state, not_found)
  ]
]

module _ (is_utf8 : Bytes → Bool) where
  unfoldable pub accept_body : ℕ → ℕ → ℕ → Result Bytes Str → WebRtcState → Reply
  accept_body now from to (err message) state =
      (state, bad_request (codes "invalid signal body: " ++ message))
  accept_body now from to (ok body) state =
      if is_utf8 body
      then relay_reply (relay now from to body state)
      else (state, bad_request (codes "signal body is not UTF-8"))

  unfoldable pub serve_signal : ℕ → ℕ → ℕ → WebRequest → Reads → WebRtcState → Reply
  unfolding accept_body
  serve_signal now from to request reads state = elim request.content_length [
    | none ↦
        (state, write_web_error (codes "411 Length Required") (codes "Content-Length is required"))
    | some content_length ↦
        if content_length == 0
        then (state, bad_request (codes "signal body is missing"))
        else if ltb webrtc_max_signal_bytes content_length
        then (
          state,
          write_web_error (codes "413 Payload Too Large") (codes "signal body is too large"),
        )
        else accept_body now from to (read_webrtc_signal_body reads content_length request.body)
            state
  ]

  -- The requests by POST.
  unfoldable pub serve_post : ℕ → Str → WebRequest → Reads → WebRtcState → Reply
  unfolding serve_signal
  serve_post now path request reads state =
      if str_eq path (codes "join")
      then join_reply (join now state)
      else elim (webrtc_single_peer_path path (codes "heartbeat")) [
        | some id ↦ heartbeat_reply (heartbeat now id state)
        | none ↦ elim (webrtc_signal_path path) [
          | some (from, to) ↦ serve_signal now from to request reads state
          | none ↦ (state, not_found)
        ]
      ]

  -- The requests behind the access token.
  unfoldable pub serve_request :
      (Str → Bytes) → Str → ℕ → Str → WebRequest → Reads → WebRtcState → Reply
  unfolding serve_get serve_post
  serve_request page client_ip now path request reads state =
      if str_eq request.method (codes "GET")
      then (if str_eq path []
          then (
            state,
            record {
              status = codes "200 OK";
              content_type = codes "text/html; charset=utf-8";
              headers = codes "Cache-Control: no-store\r\n";
              body = page client_ip;
            },
          )
          else serve_get now path state)
      else if str_eq request.method (codes "POST")
      then serve_post now path request reads state
      else (state, write_web_error (codes "405 Method Not Allowed") (codes "method not allowed"))

  unfoldable pub serve_connection :
      (Bytes → Option Str) → (Str → Bytes) → Str → ℕ → Option Str → Reads → WebRtcState → Reply
  unfolding serve_request
  serve_connection decode page client_ip now web_token connection state =
      elim (read_web_request decode connection) [
        | err e ↦ (state, bad_request (codes "bad request: " ++ e))
        | ok (request, reads) ↦ elim (web_token_path web_token request.target) [
          | none ↦ (state, not_found)
          | some path ↦ serve_request page client_ip now path request reads state
        ]
      ]
