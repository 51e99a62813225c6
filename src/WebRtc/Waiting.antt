-- ===== src/WebRtc/Waiting.antt =====
-- What happens to the signals of src/web/webrtc.rs at one call of the server.
use ii.Prelude.{
  ℕ, ◌≡◌, refl, sym, subst, ap, ◌∙◌, ◌⊎◌, true, false, none, some, Option, List, [], ◌∷◌, ◌++◌,
  append-nil, leb, ◌==◌, ==_iff, length, arith, Bool-cases, Option-cases, inl, inr, if◌then◌else◌,
  Result, ok, err,
}
use ii.Prelude.Number.{max_u64}
use ii.WebRtc.State.{
  WebRtcSignal, WebRtcPeer, WebRtcPeers, WebRtcState, WebRtcRelayError, webrtc_max_pending_signals,
  get, set, prune_webrtc_peers, seen, join, peers, heartbeat, relay, pop_front, poll,
}
use ii.WebRtc.Entries.{get-live, get-set, get-insert, get-Fits}
use ii.WebRtc.Calls.{Call, joins, lists, beats, polls, relays, step, IsValid}

-- The signals that wait for a peer; none for one that is not there.
abbrev queue : ℕ → WebRtcPeers → List WebRtcSignal
queue id peers = elim (get id peers) [ none ↦ [] | some peer ↦ peer.signals ]

abbrev accepted_one : WebRtcSignal → Result (Unit {0}) WebRtcRelayError → List WebRtcSignal
accepted_one signal (ok done) = signal ∷ []
accepted_one signal (err e) = []

-- What a call brings to a peer, if the server accepts it.
unfoldable pub accepted_for : ℕ → ℕ → Call → WebRtcState → List WebRtcSignal
accepted_for id now (relays from to body) s =
    if to == id
    then accepted_one (record { from = from; body = body }) (relay now from to body s).1
    else []
accepted_for id now _ s = []

abbrev delivered_one : Option (Option WebRtcSignal) → List WebRtcSignal
delivered_one none = []
delivered_one (some none) = []
delivered_one (some (some signal)) = signal ∷ []

-- What the answer to a call gives to a peer that polls.
unfoldable pub delivered_to : ℕ → ℕ → Call → WebRtcState → List WebRtcSignal
delivered_to id now (polls i) s = if i == id then delivered_one (poll now i s).1 else []
delivered_to id now _ s = []

unfoldable pub all_accepted : ℕ → List (ℕ × Call) → WebRtcState → List WebRtcSignal
all_accepted id [] s = []
all_accepted id ((now, call) ∷ calls) s =
    accepted_for id now call s ++ all_accepted id calls (step now call s)

unfoldable pub all_delivered : ℕ → List (ℕ × Call) → WebRtcState → List WebRtcSignal
all_delivered id [] s = []
all_delivered id ((now, call) ∷ calls) s =
    delivered_to id now call s ++ all_delivered id calls (step now call s)

abbrev pub AnySignal : WebRtcSignal → Type 0
AnySignal signal = Unit

pub queue_of :
    (id : ℕ) (peer : WebRtcPeer) (peers : WebRtcPeers)
    → get id peers ≡ some peer
    → queue id peers ≡ peer.signals
queue_of id peer peers e = rw (e, queue) refl

-- What is at a key after a write at a key that is there.
written :
    (j id : ℕ) (old new p : WebRtcPeer) (peers : WebRtcPeers)
    → get j peers ≡ some old
    → get id (set j new peers) ≡ some p
    → ((j ≡ id) × (p ≡ new)) ⊎ (((j == id) ≡ false) × (get id peers ≡ some p))
written j id old new p peers e h = elim (Bool-cases (j == id)) [
  | inl s ↦ inl ((==_iff j id).0 s, ground (arith, get-set id j new peers))
  | inr s ↦ inr (s, ground (arith, get-set id j new peers))
]

module _ (id now : ℕ) (s : WebRtcState) (valid : IsValid AnySignal s) where
  abbrev lived : WebRtcPeers
  lived = (prune_webrtc_peers s now).peers

  was_there : (p : WebRtcPeer) → get id lived ≡ some p → queue id s.peers ≡ p.signals
  unfolding prune_webrtc_peers
  was_there p e =
      queue_of id p s.peers (get-live AnySignal now id 0 s.next_peer_id p s.peers valid.1 e)

  -- A write that keeps the signals of a peer.
  kept :
      (j : ℕ) (old new p : WebRtcPeer)
      → old.signals ≡ new.signals
      → get j lived ≡ some old
      → get id (set j new lived) ≡ some p
      → p.signals ≡ queue id s.peers
  kept j old new p same e h = elim (written j id old new p lived e h) [
    | inl (here, f) ↦
        ap (λ (q : WebRtcPeer). q.signals) f
        ∙ sym same
        ∙ sym (was_there old (subst (λ k. get k lived ≡ some old) here e))
    | inr (_, f) ↦ sym (was_there p f)
  ]

  unseen : queue s.next_peer_id s.peers ≡ []
  unseen = elim (Option-cases (get s.next_peer_id s.peers)) [
    | inl e ↦ rw (e, queue) refl
    | inr (p, e) ↦
        absurd (
          omega (arith, (get-Fits AnySignal s.next_peer_id 0 s.next_peer_id p s.peers valid.1 e).0))
  ]

  join_keeps :
      (p : WebRtcPeer) → get id (join now s).0.peers ≡ some p → p.signals ≡ queue id s.peers
  unfolding join get prune_webrtc_peers
  join_keeps p h = elim (Bool-cases (leb max_u64 s.next_peer_id)) [
    | inl e ↦ sym (was_there p (rw (e, join) at h))
    | inr e ↦
        let g = rw (get-insert id s.next_peer_id _ lived) at (rw (e, join) at h) in
        elim (Bool-cases (s.next_peer_id == id)) [
          | inl same ↦
              let i = (==_iff s.next_peer_id id).0 same in
              let empty : p.signals ≡ [] = ground arith in empty ∙ sym (rw i at unseen)
          | inr other ↦ sym (was_there p (rw other at g))
        ]
  ]

  peers_keeps :
      (i : ℕ) (p : WebRtcPeer)
      → get id (peers now i s).0.peers ≡ some p
      → p.signals ≡ queue id s.peers
  unfolding peers
  peers_keeps i p h = elim (Option-cases (get i lived)) [
    | inl e ↦ sym (was_there p (rw (e, peers) at h))
    | inr (old, e) ↦ kept i old _ p refl e (rw (e, peers) at h)
  ]

  heartbeat_keeps :
      (i : ℕ) (p : WebRtcPeer)
      → get id (heartbeat now i s).0.peers ≡ some p
      → p.signals ≡ queue id s.peers
  unfolding heartbeat
  heartbeat_keeps i p h = elim (Option-cases (get i lived)) [
    | inl e ↦ sym (was_there p (rw (e, heartbeat) at h))
    | inr (old, e) ↦ kept i old _ p refl e (rw (e, heartbeat) at h)
  ]

  popped :
      (i : ℕ) (old p : WebRtcPeer) (signals : List WebRtcSignal)
      → get i lived ≡ some old
      → old.signals ≡ signals
      → get id (pop_front now i old (prune_webrtc_peers s now) signals).0.peers ≡ some p
      → (if i == id
            then delivered_one (pop_front now i old (prune_webrtc_peers s now) signals).1
            else [])
          ++ p.signals
        ≡ queue id s.peers
  popped i old p [] e f h = elim (Bool-cases (i == id)) [
    | inl here ↦ rw here (kept i old _ p refl e h)
    | inr other ↦ rw other (kept i old _ p refl e h)
  ]
  popped i old p (signal ∷ signals) e f h = elim (written i id old _ p lived e h) [
    | inl (here, g) ↦
        let there = was_there old (subst (λ k. get k lived ≡ some old) here e) in
        let hit : (i == id) ≡ true = (==_iff i id).1 here in
        rw hit (ap (λ (q : WebRtcPeer). signal ∷ q.signals) g ∙ sym f ∙ sym there)
    | inr (other, g) ↦ rw other (sym (was_there p g))
  ]

  poll_delivers :
      (i : ℕ) (p : WebRtcPeer)
      → get id (poll now i s).0.peers ≡ some p
      → delivered_to id now (polls i) s ++ p.signals ≡ queue id s.peers
  unfolding poll delivered_to
  poll_delivers i p h = elim (Option-cases (get i lived)) [
    | inl e ↦
        let there = was_there p (rw (e, poll) at h) in
        rw (e, poll)
          (elim (Bool-cases (i == id)) [
            | inl here ↦ rw here (sym there)
            | inr other ↦ rw other (sym there)
          ])
    | inr (old, e) ↦ rw (e, poll) (popped i old p old.signals e refl (rw (e, poll) at h))
  ]

  nothing :
      (to : ℕ) (p : WebRtcPeer)
      → p.signals ≡ queue id s.peers
      → p.signals ≡ queue id s.peers ++ (if to == id then [] else [])
  nothing to p h = elim (Bool-cases (to == id)) [
    | inl here ↦ rw here (h ∙ sym (append-nil _))
    | inr other ↦ rw other (h ∙ sym (append-nil _))
  ]

  pushed :
      (from to : ℕ) (signal : WebRtcSignal) (sender recipient p : WebRtcPeer)
      → get from lived ≡ some sender
      → get to (seen now from sender (prune_webrtc_peers s now)).peers ≡ some recipient
      → get id (
          set to
            (record recipient { signals = recipient.signals ++ signal ∷ [] })
            (seen now from sender (prune_webrtc_peers s now)).peers)
        ≡ some p
      → p.signals ≡ queue id s.peers ++ (if to == id then signal ∷ [] else [])
  pushed from to signal sender recipient p e g h =
      let after = (seen now from sender (prune_webrtc_peers s now)).peers in
      elim (written to id recipient _ p after g h) [
        | inl (here, f) ↦
            let hit : (to == id) ≡ true = (==_iff to id).1 here in
            let before =
              kept from sender _ recipient refl e
                (subst (λ k. get k after ≡ some recipient) here g) in
            rw hit (ap (λ (q : WebRtcPeer). q.signals) f ∙ ap (λ q. q ++ signal ∷ []) before)
        | inr (other, f) ↦ rw other (kept from sender _ p refl e f ∙ sym (append-nil _))
      ]

  relay_accepts :
      (from to : ℕ) (body : List ℕ) (p : WebRtcPeer)
      → get id (relay now from to body s).0.peers ≡ some p
      → p.signals ≡ queue id s.peers ++ accepted_for id now (relays from to body) s
  unfolding relay accepted_for
  relay_accepts from to body p h = elim (Option-cases (get from lived)) [
    | inl e ↦ rw (e, relay) (nothing to p (sym (was_there p (rw (e, relay) at h))))
    | inr (sender, e) ↦
        let after = (seen now from sender (prune_webrtc_peers s now)).peers in
        let h1 = rw (e, relay) at h in
        elim (Option-cases (get to after)) [
          | inl g ↦
              rw (e, relay)
                (rw (g, relay) (nothing to p (kept from sender _ p refl e (rw (g, relay) at h1))))
          | inr (recipient, g) ↦
              let h2 = rw (g, relay) at h1 in
              elim (Bool-cases (leb webrtc_max_pending_signals (length recipient.signals))) [
                | inl full ↦
                    rw (e, relay)
                      (rw (g, relay)
                        (rw (full, relay)
                          (nothing to p (kept from sender _ p refl e (rw (full, relay) at h2)))))
                | inr room ↦
                    rw (e, relay)
                      (rw (g, relay)
                        (rw (room, relay)
                          (pushed from to _ sender recipient p e g (rw (room, relay) at h2))))
              ]
        ]
  ]

  pub step_delivers :
      (call : Call) (p : WebRtcPeer)
      → get id (step now call s).peers ≡ some p
      → delivered_to id now call s ++ p.signals ≡ queue id s.peers ++ accepted_for id now call s
  unfolding step accepted_for delivered_to
  step_delivers joins p h = join_keeps p h ∙ sym (append-nil _)
  step_delivers (lists i) p h = peers_keeps i p h ∙ sym (append-nil _)
  step_delivers (beats i) p h = heartbeat_keeps i p h ∙ sym (append-nil _)
  step_delivers (polls i) p h = poll_delivers i p h ∙ sym (append-nil _)
  step_delivers (relays from to body) p h = relay_accepts from to body p h
