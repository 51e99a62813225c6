-- ===== src/Discovery/Nonces.antt =====
-- The services that src/discovery.rs lists have answered a query that was sent to them.
use ii.Prelude.{
  ℕ, ◌≡◌, refl, subst, ◌&&◌, Option, none, some, List, [], ◌∷◌, ◌++◌, append_assoc, append-nil,
  ◌==◌, ==_iff, ltb, arith, Bool-cases, Option-cases, inl, inr,
}
use ii.Prelude.Text.{Str, str_eq, str_eq_sound}
use ii.Discovery.{
  Service, Packet, announce, query, response, PacketFormat, Pending, Services, Discovery, Datagram,
  get_pending, insert_pending, get_service, insert_service, encode, decode, handle_decoded,
  handle_packet, discover_loop,
}

abbrev pub nothing_known : Discovery
nothing_known = record { pending = []; services = [] }

module _ (format : PacketFormat) where
  -- A datagram among those received from the peer has announced the id, and when it came, the query
  -- for the id with the nonce was sent back to the peer.
  abbrev Queried : List Datagram → Str → ℕ → ℕ → Type 0
  Queried history peer id nonce =
      (before : List Datagram) × (d : Datagram) × (after : List Datagram) × (history
        ≡ before ++ d ∷ after)
      × (decode format d.bytes ≡ some (announce id))
      × (d.peer ≡ peer)
      × ((handle_packet format d (discover_loop format before nothing_known)).1
          ≡ some (encode format (query id nonce)))

  -- A datagram among those received has answered, for the id and with the service, the query that
  -- was sent to its sender before.
  abbrev pub Answered : List Datagram → ℕ → Service → Type 0
  Answered history id service =
      (before : List Datagram) × (d : Datagram) × (after : List Datagram) × (nonce : ℕ) × (history
        ≡ before ++ d ∷ after)
      × (decode format d.bytes ≡ some (response id nonce service))
      × Queried before d.peer id nonce

  announce-query :
      (d : Datagram) (id : ℕ) (state : Discovery)
      → decode format d.bytes ≡ some (announce id)
      → (handle_packet format d state).1 ≡ some (encode format (query id d.nonce))
  unfolding handle_packet handle_decoded
  announce-query d id state e = rw e refl

  abbrev AllQueried : List Datagram → Pending → Type 0
  AllQueried history [] = Unit
  AllQueried history (((peer, id), nonce) ∷ pending) =
      Queried history peer id nonce × AllQueried history pending

  abbrev AllAnswered : List Datagram → Services → Type 0
  AllAnswered history [] = Unit
  AllAnswered history ((id, service) ∷ services) =
      Answered history id service × AllAnswered history services

  module _ (history : List Datagram) (new : Datagram) where
    Queried-later :
        (peer : Str) (id nonce : ℕ)
        → Queried history peer id nonce
        → Queried (history ++ new ∷ []) peer id nonce
    Queried-later peer id nonce (before, d, after, e, q, p, n) =
        (before, d, after ++ new ∷ [], rw e (append_assoc before (d ∷ after) (new ∷ [])), q, p, n)

    AllQueried-later :
        (pending : Pending) → AllQueried history pending → AllQueried (history ++ new ∷ []) pending
    AllQueried-later [] h = tt
    AllQueried-later (((peer, id), nonce) ∷ pending) (q, h) =
        (Queried-later peer id nonce q, AllQueried-later pending h)

    AllAnswered-later :
        (services : Services)
        → AllAnswered history services
        → AllAnswered (history ++ new ∷ []) services
    AllAnswered-later [] h = tt
    AllAnswered-later ((id, service) ∷ services) ((before, d, after, nonce, e, r, q), h) = (
      (
        before,
        d,
        after ++ new ∷ [],
        nonce,
        rw e (append_assoc before (d ∷ after) (new ∷ [])),
        r,
        q,
      ),
      AllAnswered-later services h,
    )

  insert_pending-AllQueried :
      (history : List Datagram) (peer : Str) (id nonce : ℕ) (pending : Pending)
      → Queried history peer id nonce
      → AllQueried history pending
      → AllQueried history (insert_pending peer id nonce pending)
  unfolding insert_pending
  insert_pending-AllQueried history peer id nonce [] q h = (q, tt)
  insert_pending-AllQueried history peer id nonce (((p, i), old) ∷ pending) q (o, h) =
      elim (Bool-cases (str_eq p peer && i == id)) [
        | inl e ↦
            let same_peer : p ≡ peer = str_eq_sound p peer (ground arith) in
            let same_id : i ≡ id = ground arith in rw e (rw same_peer (rw same_id q), h)
        | inr e ↦ rw e (o, insert_pending-AllQueried history peer id nonce pending q h)
      ]

  get_pending-Queried :
      (history : List Datagram) (peer : Str) (id nonce : ℕ) (pending : Pending)
      → AllQueried history pending
      → get_pending peer id pending ≡ some nonce
      → Queried history peer id nonce
  unfolding get_pending
  get_pending-Queried history peer id nonce [] h e = absurd (ground arith)
  get_pending-Queried history peer id nonce (((p, i), old) ∷ pending) (o, h) e =
      elim (Bool-cases (str_eq p peer && i == id)) [
        | inl f ↦
            let same_peer : p ≡ peer = str_eq_sound p peer (ground arith) in
            let same_id : i ≡ id = ground arith in
            let same_nonce : old ≡ nonce = ground arith in
            rw (← same_peer) (rw (← same_id) (rw (← same_nonce) o))
        | inr f ↦ get_pending-Queried history peer id nonce pending h (rw f at e)
      ]

  insert_service-AllAnswered :
      (history : List Datagram) (id : ℕ) (service : Service) (services : Services)
      → Answered history id service
      → AllAnswered history services
      → AllAnswered history (insert_service id service services)
  unfolding insert_service
  insert_service-AllAnswered history id service [] a h = (a, tt)
  insert_service-AllAnswered history id service ((i, old) ∷ services) a (o, h) =
      elim (Bool-cases (i == id)) [
        | inl e ↦ rw e (a, h)
        | inr e ↦ elim (Bool-cases (ltb id i)) [
          | inl f ↦ rw e (rw f (a, (o, h)))
          | inr f ↦ rw e (rw f (o, insert_service-AllAnswered history id service services a h))
        ]
      ]

  -- What the state knows comes from the history.
  abbrev Known : List Datagram → Discovery → Type 0
  Known history state = AllQueried history state.pending × AllAnswered history state.services

  -- `d` is the datagram, and `packet` what it is decoded to.
  handle_decoded-Known :
      (history : List Datagram) (d : Datagram) (state : Discovery) (packet : Option Packet)
      → decode format d.bytes ≡ packet
      → Known history state
      → Known (history ++ d ∷ []) (handle_decoded format packet d.nonce d.peer state).0
  unfolding handle_decoded
  handle_decoded-Known history d state (some (announce id)) e (q, a) = (
    insert_pending-AllQueried (history ++ d ∷ []) d.peer id d.nonce state.pending
        (
          history,
          d,
          [],
          refl,
          e,
          refl,
          announce-query d id (discover_loop format history nothing_known) e,
        )
        (AllQueried-later history d state.pending q),
    AllAnswered-later history d state.services a,
  )
  handle_decoded-Known history d state (some (response id nonce service)) e (q, a) =
      let q' = AllQueried-later history d state.pending q in
      let a' = AllAnswered-later history d state.services a in
      elim (Option-cases (get_pending d.peer id state.pending)) [
        | inl f ↦ rw (f, handle_decoded) (q', a')
        | inr (n, f) ↦ elim (Bool-cases (n == nonce)) [
          | inr g ↦ rw (f, handle_decoded) (rw g (q', a'))
          | inl g ↦
              let asked : Queried history d.peer id nonce =
                subst (λ k. Queried history d.peer id k) ((==_iff n nonce).0 g)
                  (get_pending-Queried history d.peer id n state.pending q f) in
              rw (f, handle_decoded)
                (rw g (
                  q',
                  insert_service-AllAnswered (history ++ d ∷ []) id service state.services
                      (history, d, [], nonce, refl, e, asked) a',
                ))
        ]
      ]
  handle_decoded-Known history d state (some (query id nonce)) e (q, a) =
      (AllQueried-later history d state.pending q, AllAnswered-later history d state.services a)
  handle_decoded-Known history d state none e (q, a) =
      (AllQueried-later history d state.pending q, AllAnswered-later history d state.services a)

  handle_packet-Known :
      (history : List Datagram) (d : Datagram) (state : Discovery)
      → Known history state
      → Known (history ++ d ∷ []) (handle_packet format d state).0
  unfolding handle_packet
  handle_packet-Known history d state k =
      handle_decoded-Known history d state (decode format d.bytes) refl k

  discover_loop-Known :
      (history datagrams : List Datagram) (state : Discovery)
      → Known history state
      → Known (history ++ datagrams) (discover_loop format datagrams state)
  unfolding discover_loop
  discover_loop-Known history [] state k = rw (append-nil history) k
  discover_loop-Known history (d ∷ datagrams) state k =
      subst (λ h. Known h (discover_loop format (d ∷ datagrams) state))
        (append_assoc history (d ∷ []) datagrams)
        (discover_loop-Known (history ++ d ∷ []) datagrams (handle_packet format d state).0
          (handle_packet-Known history d state k))

  get_service-Answered :
      (history : List Datagram) (id : ℕ) (service : Service) (services : Services)
      → AllAnswered history services
      → get_service id services ≡ some service
      → Answered history id service
  unfolding get_service
  get_service-Answered history id service [] h e = absurd (ground arith)
  get_service-Answered history id service ((i, old) ∷ services) (o, h) e =
      elim (Bool-cases (i == id)) [
        | inl f ↦
            let same_id : i ≡ id = (==_iff i id).0 f in
            let same : old ≡ service = ground arith in
            subst (λ k. Answered history k service) same_id
              (subst (λ s. Answered history i s) same o)
        | inr f ↦ get_service-Answered history id service services h (rw f at e)
      ]

  -- Whatever datagrams come, from whomever and in whatever order, a service is found for an id only
  -- if a peer has announced the id, the query for it with a nonce was then sent back to this peer,
  -- and the peer has answered after that with this service, the id and this nonce.
  pub discover_loop-Answered :
      (datagrams : List Datagram) (id : ℕ) (service : Service)
      → get_service id (discover_loop format datagrams nothing_known).services ≡ some service
      → Answered datagrams id service
  discover_loop-Answered datagrams id service h =
      get_service-Answered datagrams id service _
        (discover_loop-Known [] datagrams nothing_known (tt, tt)).1 h
