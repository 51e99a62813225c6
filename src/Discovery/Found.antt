-- ===== src/Discovery/Found.antt =====
-- A service of src/discovery.rs that takes part in the handshake is found.
use ii.Prelude.{
  ◌⊎◌, ℕ, ◌≤◌, ◌≡◌, ◌≢◌, refl, ap, ◌∙◌, true, ◌&&◌, Option, none, some, List, [], ◌∷◌, ◌++◌, ◌==◌,
  ==_refl, leb, length, All, arith, Bool-cases, inl, inr, is_some_and, or_else, if◌then◌else◌,
}
use ii.Prelude.Text.{Str, Bytes, str_eq, str_eq_sound, str_eq_refl, str_eq_iff}
use ii.Discovery.{
  Service, Packet, announce, query, response, PacketFormat, Pending, Services, Discovery, Datagram,
  max_packet, get_pending, insert_pending, get_service, insert_service, encode, decode,
  handle_decoded, handle_packet, discover_loop, advertiser_reply,
}

get_pending-insert_pending :
    (peer p : Str) (id i nonce : ℕ) (pending : Pending)
    → get_pending peer id (insert_pending p i nonce pending)
      ≡ (if str_eq p peer && i == id then some nonce else get_pending peer id pending)
unfolding get_pending insert_pending
get_pending-insert_pending peer p id i nonce [] = refl
get_pending-insert_pending peer p id i nonce (((q, j), old) ∷ pending) = ground (
  arith,
  get_pending-insert_pending peer p id i nonce pending,
  str_eq_iff q p,
  str_eq_iff p peer,
  str_eq_iff q peer,
)

get_service-insert_service :
    (id i : ℕ) (service : Service) (services : Services)
    → get_service id (insert_service i service services)
      ≡ (if i == id then some service else get_service id services)
unfolding get_service insert_service
get_service-insert_service id i service [] = refl
get_service-insert_service id i service ((j, old) ∷ services) =
    ground (arith, get_service-insert_service id i service services)

module _ (format : PacketFormat)
    (format_law : (packet : Packet) (bytes : Bytes)
      → format.to_stdvec packet ≡ some bytes
      → format.from_bytes bytes ≡ some packet) where
  -- A packet that the serializer takes and that fits into a datagram.
  abbrev pub Fits : Packet → Type 0
  Fits packet =
      (bytes : Bytes) × (format.to_stdvec packet ≡ some bytes)
      × (length (encode format packet) ≤ max_packet)

  decode-encode :
      (packet : Packet) → Fits packet → decode format (encode format packet) ≡ some packet
  unfolding decode encode
  decode-encode packet (bytes, e, fits) =
      let small : leb (length (encode format packet)) max_packet ≡ true = ground arith in
      rw small (rw (e, or_else) (format_law packet bytes e))

  -- A datagram that announces the id again, from the same peer.
  abbrev pub Other : Str → ℕ → Datagram → Type 0
  Other peer id d = (d.peer ≢ peer) ⊎ (decode format d.bytes ≢ some (announce id))

  handle_decoded_keeps :
      (peer : Str) (id nonce : ℕ) (sender : Str) (packet : Option Packet) (state : Discovery)
      → (sender ≢ peer) ⊎ (packet ≢ some (announce id))
      → get_pending peer id (handle_decoded format packet nonce sender state).0.pending
        ≡ get_pending peer id state.pending
  unfolding handle_decoded
  handle_decoded_keeps peer id nonce sender (some (announce i)) state other =
      elim (Bool-cases (str_eq sender peer && i == id)) [
        | inl e ↦
            let same_peer : sender ≡ peer = str_eq_sound sender peer (ground arith) in
            let same_id : i ≡ id = ground arith in
            elim other [
              | inl differs ↦ absurd (differs same_peer)
              | inr differs ↦ absurd (differs (ap (λ k. some (announce k)) same_id))
            ]
        | inr e ↦ get_pending-insert_pending peer sender id i nonce state.pending ∙ rw e refl
      ]
  handle_decoded_keeps peer id nonce sender (some (response i n service)) state other =
      elim (Bool-cases (is_some_and (get_pending sender i state.pending) (λ m. m == n))) [
        | inl e ↦ rw (e, handle_decoded) refl
        | inr e ↦ rw (e, handle_decoded) refl
      ]
  handle_decoded_keeps peer id nonce sender (some (query i n)) state other = refl
  handle_decoded_keeps peer id nonce sender none state other = refl

  handle_packet_keeps :
      (peer : Str) (id : ℕ) (d : Datagram) (state : Discovery)
      → Other peer id d
      → get_pending peer id (handle_packet format d state).0.pending
        ≡ get_pending peer id state.pending
  unfolding handle_packet
  handle_packet_keeps peer id d state other =
      handle_decoded_keeps peer id d.nonce d.peer (decode format d.bytes) state other

  discover_loop_keeps :
      (peer : Str) (id : ℕ) (datagrams : List Datagram) (state : Discovery)
      → All (Other peer id) datagrams
      → get_pending peer id (discover_loop format datagrams state).pending
        ≡ get_pending peer id state.pending
  unfolding discover_loop
  discover_loop_keeps peer id [] state a = refl
  discover_loop_keeps peer id (d ∷ datagrams) state (o, a) =
      discover_loop_keeps peer id datagrams (handle_packet format d state).0 a
      ∙ handle_packet_keeps peer id d state o

  discover_loop-append :
      (xs ys : List Datagram) (state : Discovery)
      → discover_loop format (xs ++ ys) state
        ≡ discover_loop format ys (discover_loop format xs state)
  unfolding discover_loop
  discover_loop-append [] ys state = refl
  discover_loop-append (d ∷ xs) ys state =
      discover_loop-append xs ys (handle_packet format d state).0

  announced :
      (id : ℕ) (d : Datagram) (state : Discovery)
      → decode format d.bytes ≡ some (announce id)
      → handle_packet format d state ≡ (
        record state { pending = insert_pending d.peer id d.nonce state.pending },
        some (encode format (query id d.nonce)),
      )
  unfolding handle_packet handle_decoded
  announced id d state e = rw e refl

  replied :
      (service : Service) (id nonce : ℕ)
      → Fits (query id nonce)
      → advertiser_reply format service id (encode format (query id nonce))
        ≡ some (encode format (response id nonce service))
  unfolding advertiser_reply
  replied service id nonce f =
      rw (decode-encode (query id nonce) f, advertiser_reply) (rw (==_refl id) refl)

  answered :
      (service : Service) (id nonce : ℕ) (d : Datagram) (state : Discovery)
      → Fits (response id nonce service)
      → d.bytes ≡ encode format (response id nonce service)
      → get_pending d.peer id state.pending ≡ some nonce
      → get_service id (handle_packet format d state).0.services ≡ some service
  unfolding handle_packet handle_decoded
  answered service id nonce d state f e p = rw e (
      rw (decode-encode (response id nonce service) f) (
        rw p (
          rw (==_refl nonce)
            (get_service-insert_service id id service state.services ∙ rw (==_refl id) refl))))

  -- When a packet that announces an id has come, a query is sent to its sender; and if the
  -- advertiser of the id and a service gets the query, and its reply comes back from the same peer,
  -- with any datagrams between but one by which the peer announces the id again, then the service is
  -- found for the id, if the serializer reads back what it writes and both packets fit.
  pub handshake_finds :
      (service : Service) (id : ℕ) (d answer : Datagram) (others : List Datagram)
      (state : Discovery)
      → decode format d.bytes ≡ some (announce id)
      → Fits (query id d.nonce)
      → Fits (response id d.nonce service)
      → advertiser_reply format service id (encode format (query id d.nonce)) ≡ some answer.bytes
      → answer.peer ≡ d.peer
      → All (Other d.peer id) others
      → ((handle_packet format d state).1 ≡ some (encode format (query id d.nonce)))
        × (get_service id (discover_loop format (d ∷ others ++ answer ∷ []) state).services
            ≡ some service)
  unfolding discover_loop
  handshake_finds service id d answer others state e fq fr r p a =
      let s1 = (handle_packet format d state).0 in
      let s2 = discover_loop format others s1 in
      let asked : get_pending d.peer id s2.pending ≡ some d.nonce =
        discover_loop_keeps d.peer id others s1 a
        ∙ ap (λ (q : Discovery × Option Bytes). get_pending d.peer id q.0.pending)
            (announced id d state e)
        ∙ get_pending-insert_pending d.peer d.peer id id d.nonce state.pending
        ∙ rw (str_eq_refl d.peer) (rw (==_refl id) refl) in
      let same : answer.bytes ≡ encode format (response id d.nonce service) =
        cc (replied service id d.nonce fq) in
      (
        ap (λ (q : Discovery × Option Bytes). q.1) (announced id d state e),
        ap (λ (q : Discovery). get_service id q.services)
              (discover_loop-append others (answer ∷ []) s1)
            ∙ answered service id d.nonce answer s2 fr same (rw p asked),
      )
