-- ===== src/WebRtc/Delivery.antt =====
-- The delivery of signals by the server of src/web/webrtc.rs, through any sequence of calls.
use ii.Prelude.{
  ℕ, ◌<◌, ◌≡◌, sym, ap, ◌∙◌, some, List, [], ◌∷◌, ◌++◌, append_assoc, append-nil, arith,
  Option-cases, inl, inr,
}
use ii.WebRtc.State.{WebRtcPeer, WebRtcState, get}
use ii.WebRtc.Entries.{get-Fits}
use ii.WebRtc.Calls.{Call, step, run, IsValid, step-IsValid}
use ii.WebRtc.Waiting.{
  AnySignal, queue_of, accepted_for, delivered_to, all_accepted, all_delivered, step_delivers,
}
use ii.WebRtc.Presence.{next_grows, brought, gone}

module _ (id : ℕ) where
  -- Every signal that the server accepts for a peer that stays in the room is delivered to it once,
  -- in the order of acceptance, and by the server's answers to that peer's polls only: what the
  -- polls gave and what waits at the end are what waited at the start and what was accepted since,
  -- whatever calls the peers make, at whatever times.
  pub run_delivers :
      (calls : List (ℕ × Call)) (s : WebRtcState) (first last : WebRtcPeer)
      → IsValid AnySignal s
      → get id s.peers ≡ some first
      → get id (run calls s).peers ≡ some last
      → all_delivered id calls s ++ last.signals ≡ first.signals ++ all_accepted id calls s
  unfolding run all_delivered all_accepted
  run_delivers [] s first last v e h = same ∙ sym (append-nil first.signals)
    where
      same : last.signals ≡ first.signals
      same = ground arith
  run_delivers ((now, call) ∷ calls) s first last v e h =
      let t = step now call s in
      let w = step-IsValid AnySignal now call s (brought call) v in
      let below = (get-Fits AnySignal id 0 s.next_peer_id first s.peers v.1 e).0 in
      let l' : id < t.next_peer_id = omega (arith, next_grows now call s) in
      elim (Option-cases (get id t.peers)) [
        | inl none_now ↦ absurd (ground (arith, gone id calls t last w l' h))
        | inr (mid, there) ↦
            append_assoc (delivered_to id now call s) _ _
            ∙ ap (λ q. delivered_to id now call s ++ q) (run_delivers calls t mid last w there h)
            ∙ sym (append_assoc (delivered_to id now call s) _ _)
            ∙ ap (λ q. q ++ all_accepted id calls t)
                (step_delivers id now s v call mid there
                  ∙ ap (λ q. q ++ accepted_for id now call s) (queue_of id first s.peers e))
            ∙ append_assoc first.signals _ _
      ]
