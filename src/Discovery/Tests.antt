-- ===== src/Discovery/Tests.antt =====
-- Runs of src/discovery.rs with a format for a few packets, and instances of the theorems.
use ii.Prelude.{zero, suc, ◌≡◌, refl, true, Option, none, some, List, [], ◌∷◌, ◌++◌, arith, inl}
use ii.Prelude.Text.{Str, Bytes, codes, str_eq, str_eq_iff}
use ii.Discovery.{
  Service, send, web, dav, http, Packet, announce, query, response, PacketFormat, Discovery,
  Datagram, get_pending, insert_pending, get_service, insert_service, encode, decode,
  handle_decoded, handle_packet, discover_loop, advertiser_reply,
}
use ii.Discovery.Nonces.{Answered, discover_loop-Answered}
use ii.Discovery.Found.{Fits, Other, handshake_finds}

-- Only announcements, queries and the addresses of web servers.
abbrev written : Packet → Option Bytes
written (announce id) = some (0 ∷ id ∷ [])
written (query id nonce) = some (1 ∷ id ∷ nonce ∷ [])
written (response id nonce (web url)) = some (2 ∷ id ∷ nonce ∷ url)
written (response id nonce (dav url)) = none
written (response id nonce (http kind url)) = none
written (response id nonce (send ticket name kind size)) = none

abbrev read : Bytes → Option Packet
read (zero ∷ id ∷ []) = some (announce id)
read (suc zero ∷ id ∷ nonce ∷ []) = some (query id nonce)
read (suc (suc zero) ∷ id ∷ nonce ∷ url) = some (response id nonce (web url))
read _ = none

read-written :
    (packet : Packet) (bytes : Bytes) → written packet ≡ some bytes → read bytes ≡ some packet
read-written (announce id) bytes h = let e : bytes ≡ 0 ∷ id ∷ [] = cc in rw e refl
read-written (query id nonce) bytes h = let e : bytes ≡ 1 ∷ id ∷ nonce ∷ [] = cc in rw e refl
read-written (response id nonce (web url)) bytes h =
    let e : bytes ≡ 2 ∷ id ∷ nonce ∷ url = cc in rw e refl
read-written (response id nonce (dav url)) bytes h = absurd (ground arith)
read-written (response id nonce (http kind url)) bytes h = absurd (ground arith)
read-written (response id nonce (send ticket name kind size)) bytes h = absurd (ground arith)

abbrev format : PacketFormat
format = record { to_stdvec = written; from_bytes = read }

abbrev site : Service
site = web (codes "http://10.0.0.2/")

abbrev peer : Str
peer = codes "10.0.0.2:5000"

abbrev announcement : Datagram
announcement = record { nonce = 77; bytes = codes "IID1" ++ 0 ∷ 7 ∷ []; peer = peer }

abbrev reply : Datagram
reply = record {
  nonce = 0;
  bytes = codes "IID1" ++ 2 ∷ 7 ∷ 77 ∷ codes "http://10.0.0.2/";
  peer = peer;
}

-- An answer from another host, with a nonce that it has guessed.
abbrev forged : Datagram
forged = record {
  nonce = 0;
  bytes = codes "IID1" ++ 2 ∷ 7 ∷ 76 ∷ codes "http://10.0.0.9/";
  peer = codes "10.0.0.9:5000";
}

abbrev heard : List Datagram
heard = announcement ∷ forged ∷ reply ∷ []

abbrev nothing : Discovery
nothing = record { pending = []; services = [] }

site_found : get_service 7 (discover_loop format heard nothing).services ≡ some site
unfolding discover_loop handle_packet handle_decoded encode decode get_pending insert_pending
    get_service insert_service
site_found = refl

discover_loop-Answered_example : Answered format heard 7 site
discover_loop-Answered_example = discover_loop-Answered format heard 7 site site_found

is_announcement : decode format announcement.bytes ≡ some (announce 7)
unfolding decode
is_announcement = refl

query-Fits : Fits format read-written (query 7 77)
unfolding encode
query-Fits = (1 ∷ 7 ∷ 77 ∷ [], refl, omega arith)

reply-Fits : Fits format read-written (response 7 77 site)
unfolding encode
reply-Fits = (2 ∷ 7 ∷ 77 ∷ codes "http://10.0.0.2/", refl, omega arith)

advertiser_replies : advertiser_reply format site 7 (encode format (query 7 77)) ≡ some reply.bytes
unfolding advertiser_reply encode decode
advertiser_replies = refl

forged-Other : Other format read-written peer 7 forged
forged-Other = inl (λ e.
    let same : str_eq forged.peer peer ≡ true = (str_eq_iff forged.peer peer).1 e in
    absurd (ground arith))

handshake_finds_example : get_service 7 (discover_loop format heard nothing).services ≡ some site
handshake_finds_example =
    (handshake_finds format read-written site 7 announcement reply (forged ∷ []) nothing
      is_announcement query-Fits reply-Fits advertiser_replies refl (forged-Other, tt)).1
