-- ===== src/WebRtc/Calls.antt =====
-- The room of src/web/webrtc.rs through any sequence of calls of its methods.
use ii.Prelude.{
  ℕ, ◌<◌, ◌≡◌, refl, false, some, List, [], ◌∷◌, ◌++◌, leb, length, arith, length-append,
  All-append, leb→lt, Bool-cases, Option-cases, inl, inr,
}
use ii.Prelude.Text.{Bytes}
use ii.Prelude.Number.{max_u64}
use ii.WebRtc.State.{
  WebRtcSignal, WebRtcPeer, WebRtcState, webrtc_max_pending_signals, get, prune_webrtc_peers, seen,
  join, peers, heartbeat, relay, pop_front, poll,
}
use ii.WebRtc.Entries.{Fits, Entries, live-Entries, set-Entries, insert-Entries, get-Fits}

pub data Call : Type 0 where
  joins : Call
  lists beats polls : ℕ → Call
  relays : ℕ → ℕ → Bytes → Call

unfoldable pub step : ℕ → Call → WebRtcState → WebRtcState
step now joins s = (join now s).0
step now (lists id) s = (peers now id s).0
step now (beats id) s = (heartbeat now id s).0
step now (polls id) s = (poll now id s).0
step now (relays from to body) s = (relay now from to body s).0

unfoldable pub run : List (ℕ × Call) → WebRtcState → WebRtcState
run [] s = s
run ((now, call) ∷ calls) s = run calls (step now call s)

module _ (P : WebRtcSignal → Type 0) where
  -- The keys are distinct, above zero and below the next one to give, and every queue fits.
  abbrev pub IsValid : WebRtcState → Type 0
  IsValid s = (0 < s.next_peer_id) × Entries P 0 s.next_peer_id s.peers

  -- A call that relays a signal relays one as `P` says.
  abbrev pub Brings : Call → Type 0
  Brings (relays from to body) = P (record { from = from; body = body })
  Brings _ = Unit

  seen-IsValid :
      (now id : ℕ) (peer : WebRtcPeer) (s : WebRtcState)
      → IsValid s
      → Fits P peer.signals
      → IsValid (seen now id peer s)
  seen-IsValid now id peer s (a, h) f = (a, set-Entries P id 0 s.next_peer_id _ s.peers f h)

  prune-IsValid : (now : ℕ) (s : WebRtcState) → IsValid s → IsValid (prune_webrtc_peers s now)
  unfolding prune_webrtc_peers
  prune-IsValid now s (a, h) = (a, live-Entries P now 0 s.next_peer_id s.peers h)

  fits :
      (id : ℕ) (peer : WebRtcPeer) (s : WebRtcState)
      → IsValid s
      → get id s.peers ≡ some peer
      → Fits P peer.signals
  fits id peer s (a, h) e = (get-Fits P id 0 s.next_peer_id peer s.peers h e).1

  join-IsValid : (now : ℕ) (s : WebRtcState) → IsValid s → IsValid (join now s).0
  unfolding join
  join-IsValid now s v =
      let (a, h) = prune-IsValid now s v in
      elim (Bool-cases (leb max_u64 (prune_webrtc_peers s now).next_peer_id)) [
        | inl e ↦ rw e (a, h)
        | inr e ↦ rw e (omega arith, insert-Entries P 0 _ _ _ (omega arith, tt) a h)
      ]

  peers-IsValid : (now id : ℕ) (s : WebRtcState) → IsValid s → IsValid (peers now id s).0
  unfolding peers
  peers-IsValid now id s v =
      let w = prune-IsValid now s v in
      elim (Option-cases (get id (prune_webrtc_peers s now).peers)) [
        | inl e ↦ rw (e, peers) w
        | inr (peer, e) ↦ rw (e, peers) (seen-IsValid now id peer _ w (fits id peer _ w e))
      ]

  heartbeat-IsValid : (now id : ℕ) (s : WebRtcState) → IsValid s → IsValid (heartbeat now id s).0
  unfolding heartbeat
  heartbeat-IsValid now id s v =
      let w = prune-IsValid now s v in
      elim (Option-cases (get id (prune_webrtc_peers s now).peers)) [
        | inl e ↦ rw (e, heartbeat) w
        | inr (peer, e) ↦ rw (e, heartbeat) (seen-IsValid now id peer _ w (fits id peer _ w e))
      ]

  pop_front-IsValid :
      (now id : ℕ) (peer : WebRtcPeer) (s : WebRtcState) (signals : List WebRtcSignal)
      → IsValid s
      → peer.signals ≡ signals
      → Fits P signals
      → IsValid (pop_front now id peer s signals).0
  pop_front-IsValid now id peer s [] v e f = seen-IsValid now id peer s v (rw e f)
  pop_front-IsValid now id peer s (signal ∷ signals) v e (l, (p, ps)) =
      seen-IsValid now id (record peer { signals = signals }) s v (omega arith, ps)

  poll-IsValid : (now id : ℕ) (s : WebRtcState) → IsValid s → IsValid (poll now id s).0
  unfolding poll
  poll-IsValid now id s v =
      let w = prune-IsValid now s v in
      elim (Option-cases (get id (prune_webrtc_peers s now).peers)) [
        | inl e ↦ rw (e, poll) w
        | inr (peer, e) ↦
            rw (e, poll) (pop_front-IsValid now id peer _ peer.signals w refl (fits id peer _ w e))
      ]

  push-Fits :
      (signals : List WebRtcSignal) (signal : WebRtcSignal)
      → leb webrtc_max_pending_signals (length signals) ≡ false
      → P signal
      → Fits P signals
      → Fits P (signals ++ signal ∷ [])
  push-Fits signals signal room p (l, all) = (
    omega (arith, length-append signals (signal ∷ []), leb→lt _ _ room),
    All-append P signals (signal ∷ []) all (p, tt),
  )

  relay-IsValid :
      (now from to : ℕ) (body : Bytes) (s : WebRtcState)
      → P (record { from = from; body = body })
      → IsValid s
      → IsValid (relay now from to body s).0
  unfolding relay
  relay-IsValid now from to body s p v =
      let w = prune-IsValid now s v in
      elim (Option-cases (get from (prune_webrtc_peers s now).peers)) [
        | inl e ↦ rw (e, relay) w
        | inr (sender, e) ↦
            let after = seen now from sender (prune_webrtc_peers s now) in
            let x : IsValid after = seen-IsValid now from sender _ w (fits from sender _ w e) in
            elim (Option-cases (get to after.peers)) [
              | inl g ↦ rw (e, relay) (rw (g, relay) x)
              | inr (recipient, g) ↦
                  elim (Bool-cases (leb webrtc_max_pending_signals (length recipient.signals))) [
                    | inl full ↦ rw (e, relay) (rw (g, relay) (rw (full, relay) x))
                    | inr room ↦
                        rw (e, relay)
                          (rw (g, relay)
                            (rw (room, relay)
                              (
                                x.0,
                                set-Entries P to 0 _ _ _
                                    (push-Fits recipient.signals _ room p (fits to recipient _ x g))
                                    x.1,
                              )))
                  ]
            ]
      ]

  pub step-IsValid :
      (now : ℕ) (call : Call) (s : WebRtcState)
      → Brings call
      → IsValid s
      → IsValid (step now call s)
  unfolding step
  step-IsValid now joins s b v = join-IsValid now s v
  step-IsValid now (lists id) s b v = peers-IsValid now id s v
  step-IsValid now (beats id) s b v = heartbeat-IsValid now id s v
  step-IsValid now (polls id) s b v = poll-IsValid now id s v
  step-IsValid now (relays from to body) s b v = relay-IsValid now from to body s b v
