-- ===== src/WebRtc/Presence.antt =====
-- Which peers of src/web/webrtc.rs are in the room after a call.
use ii.Prelude.{
  ℕ, ◌<◌, ◌≤◌, is_some, ◌≡◌, refl, true, some, List, [], ◌∷◌, leb, length, arith, Bool-cases,
  Option-cases, inl, inr,
}
use ii.WebRtc.State.{
  WebRtcSignal, WebRtcPeer, WebRtcPeers, WebRtcState, webrtc_max_pending_signals, get, set,
  prune_webrtc_peers, seen, join, peers, heartbeat, relay, pop_front, poll,
}
use ii.WebRtc.Entries.{get-live, get-set, get-insert}
use ii.WebRtc.Calls.{
  Call, joins, lists, beats, polls, relays, step, run, IsValid, Brings, step-IsValid,
}
use ii.WebRtc.Waiting.{AnySignal}

module _ (id now : ℕ) (s : WebRtcState) (valid : IsValid AnySignal s) where
  abbrev lived : WebRtcPeers
  lived = (prune_webrtc_peers s now).peers

  -- A peer that is there after a write was there before.
  was_in :
      (j : ℕ) (new p : WebRtcPeer) (peers : WebRtcPeers)
      → get id (set j new peers) ≡ some p
      → is_some (get id peers) ≡ true
  was_in j new p peers h = ground (arith, get-set id j new peers)

  was_in_room : (p : WebRtcPeer) → get id lived ≡ some p → is_some (get id s.peers) ≡ true
  unfolding prune_webrtc_peers
  was_in_room p e = rw (get-live AnySignal now id 0 s.next_peer_id p s.peers valid.1 e) refl

  in_room :
      (j : ℕ) (new p : WebRtcPeer)
      → get id (set j new lived) ≡ some p
      → is_some (get id s.peers) ≡ true
  in_room j new p h = elim (Option-cases (get id lived)) [
    | inl e ↦ absurd (ground (arith, was_in j new p lived h))
    | inr (q, e) ↦ was_in_room q e
  ]

  popped_in :
      (i : ℕ) (old p : WebRtcPeer) (signals : List WebRtcSignal)
      → get id (pop_front now i old (prune_webrtc_peers s now) signals).0.peers ≡ some p
      → is_some (get id s.peers) ≡ true
  popped_in i old p [] h = in_room i _ p h
  popped_in i old p (signal ∷ signals) h = in_room i _ p h

  pushed_in :
      (from to : ℕ) (sender new p : WebRtcPeer)
      → get id (set to new (set from sender lived)) ≡ some p
      → is_some (get id s.peers) ≡ true
  pushed_in from to sender new p h = elim (Option-cases (get id (set from sender lived))) [
    | inl e ↦ absurd (ground (arith, was_in to new p (set from sender lived) h))
    | inr (q, e) ↦ in_room from sender q e
  ]

  joined_in :
      (p : WebRtcPeer)
      → id < s.next_peer_id
      → get id (join now s).0.peers ≡ some p
      → is_some (get id s.peers) ≡ true
  unfolding join prune_webrtc_peers
  joined_in p l h = ground (
    arith,
    was_in_room p,
    get-insert id s.next_peer_id (record { last_seen = now; signals = [] }) lived,
  )

  listed_in :
      (i : ℕ) (p : WebRtcPeer)
      → get id (peers now i s).0.peers ≡ some p
      → is_some (get id s.peers) ≡ true
  unfolding peers
  listed_in i p h = elim (Option-cases (get i lived)) [
    | inl e ↦ was_in_room p (rw (e, peers) at h)
    | inr (old, e) ↦ in_room i _ p (rw (e, peers) at h)
  ]

  beaten_in :
      (i : ℕ) (p : WebRtcPeer)
      → get id (heartbeat now i s).0.peers ≡ some p
      → is_some (get id s.peers) ≡ true
  unfolding heartbeat
  beaten_in i p h = elim (Option-cases (get i lived)) [
    | inl e ↦ was_in_room p (rw (e, heartbeat) at h)
    | inr (old, e) ↦ in_room i _ p (rw (e, heartbeat) at h)
  ]

  polled_in :
      (i : ℕ) (p : WebRtcPeer)
      → get id (poll now i s).0.peers ≡ some p
      → is_some (get id s.peers) ≡ true
  unfolding poll
  polled_in i p h = elim (Option-cases (get i lived)) [
    | inl e ↦ was_in_room p (rw (e, poll) at h)
    | inr (old, e) ↦ popped_in i old p old.signals (rw (e, poll) at h)
  ]

  relayed_in :
      (from to : ℕ) (body : List ℕ) (p : WebRtcPeer)
      → get id (relay now from to body s).0.peers ≡ some p
      → is_some (get id s.peers) ≡ true
  unfolding relay
  relayed_in from to body p h = elim (Option-cases (get from lived)) [
    | inl e ↦ was_in_room p (rw (e, relay) at h)
    | inr (sender, e) ↦
        let after = (seen now from sender (prune_webrtc_peers s now)).peers in
        let h1 = rw (e, relay) at h in
        elim (Option-cases (get to after)) [
          | inl g ↦ in_room from _ p (rw (g, relay) at h1)
          | inr (recipient, g) ↦
              let h2 = rw (g, relay) at h1 in
              elim (Bool-cases (leb webrtc_max_pending_signals (length recipient.signals))) [
                | inl full ↦ in_room from _ p (rw (full, relay) at h2)
                | inr room ↦ pushed_in from to _ _ p (rw (room, relay) at h2)
              ]
        ]
  ]

  -- Only `join` brings a peer, and it brings the next one.
  came :
      (call : Call) (p : WebRtcPeer)
      → id < s.next_peer_id
      → get id (step now call s).peers ≡ some p
      → is_some (get id s.peers) ≡ true
  unfolding step
  came joins p l h = joined_in p l h
  came (lists i) p l h = listed_in i p h
  came (beats i) p l h = beaten_in i p h
  came (polls i) p l h = polled_in i p h
  came (relays from to body) p l h = relayed_in from to body p h

-- The next key never goes down.
pub next_grows :
    (now : ℕ) (call : Call) (s : WebRtcState) → s.next_peer_id ≤ (step now call s).next_peer_id
unfolding step join peers heartbeat poll relay prune_webrtc_peers
next_grows now joins s = ground arith
next_grows now (lists i) s = ground arith
next_grows now (beats i) s = ground arith
next_grows now (polls i) s = ground arith
next_grows now (relays from to body) s = ground arith

pub brought : (call : Call) → Brings AnySignal call
brought joins = tt
brought (lists i) = tt
brought (beats i) = tt
brought (polls i) = tt
brought (relays from to body) = tt

module _ (id : ℕ) where
  -- A peer that is gone does not come back.
  pub gone :
      (calls : List (ℕ × Call)) (s : WebRtcState) (p : WebRtcPeer)
      → IsValid AnySignal s
      → id < s.next_peer_id
      → get id (run calls s).peers ≡ some p
      → is_some (get id s.peers) ≡ true
  unfolding run
  gone [] s p v l h = rw h refl
  gone ((now, call) ∷ calls) s p v l h =
      let t = step now call s in
      let l' : id < t.next_peer_id = omega (arith, next_grows now call s) in
      let later = gone calls t p (step-IsValid AnySignal now call s (brought call) v) l' h in
      elim (Option-cases (get id t.peers)) [
        | inl e ↦ absurd (ground (arith, later))
        | inr (q, e) ↦ came id now s v call q l e
      ]
