-- ===== src/WebRtc/Entries.antt =====
-- The peers of src/web/webrtc.rs: keys in their order, below the next one to give, and queues
-- within their limit.
use ii.Prelude.{
  ℕ, ◌+◌, ◌-◌, ◌≤◌, ◌<◌, ◌≡◌, refl, false, none, some, List, [], ◌∷◌, if◌then◌else◌, ltb, ◌==◌,
  length, All, arith, ==_iff, Bool-cases, inl, inr, is_some,
}
use ii.WebRtc.State.{
  WebRtcSignal, WebRtcPeer, WebRtcPeers, webrtc_peer_ttl, webrtc_max_pending_signals, get, set,
  insert, live,
}

module _ (P : WebRtcSignal → Type 0) where
  -- A queue within its limit, of signals that are all as `P` says.
  abbrev pub Fits : List WebRtcSignal → Type 0
  Fits signals = (length signals ≤ webrtc_max_pending_signals) × All P signals

  -- The keys ascend strictly from above `lo` to below `hi`.
  abbrev pub Entries : ℕ → ℕ → WebRtcPeers → Type 0
  Entries lo hi [] = Unit
  Entries lo hi ((i, peer) ∷ peers) = (lo < i) × (i < hi) × Fits peer.signals × Entries i hi peers

  Entries-weaken :
      (lo lo' hi : ℕ) (peers : WebRtcPeers) → lo' ≤ lo → Entries lo hi peers → Entries lo' hi peers
  Entries-weaken lo lo' hi [] le h = tt
  Entries-weaken lo lo' hi ((i, peer) ∷ peers) le (a, b, f, h) = (omega arith, b, f, h)

  pub live-Entries :
      (now lo hi : ℕ) (peers : WebRtcPeers) → Entries lo hi peers → Entries lo hi (live now peers)
  unfolding live
  live-Entries now lo hi [] h = tt
  live-Entries now lo hi ((i, peer) ∷ peers) (a, b, f, h) =
      let rest = live-Entries now i hi peers h in
      elim (Bool-cases (ltb (now - peer.last_seen) webrtc_peer_ttl)) [
        | inl e ↦ rw e (a, b, f, rest)
        | inr e ↦ rw e (Entries-weaken i lo hi (live now peers) (omega arith) rest)
      ]

  pub set-Entries :
      (id lo hi : ℕ) (new : WebRtcPeer) (peers : WebRtcPeers)
      → Fits new.signals
      → Entries lo hi peers
      → Entries lo hi (set id new peers)
  unfolding set
  set-Entries id lo hi new [] n h = tt
  set-Entries id lo hi new ((i, peer) ∷ peers) n (a, b, f, h) = elim (Bool-cases (i == id)) [
    | inl e ↦ rw e (a, b, n, h)
    | inr e ↦ rw e (a, b, f, set-Entries id i hi new peers n h)
  ]

  Entries-above :
      (lo hi : ℕ) (peers : WebRtcPeers) → Entries lo hi peers → Entries lo (hi + 1) peers
  Entries-above lo hi [] h = tt
  Entries-above lo hi ((i, peer) ∷ peers) (a, b, f, h) =
      (a, omega arith, f, Entries-above i hi peers h)

  -- The next key goes to the end.
  pub insert-Entries :
      (lo hi : ℕ) (new : WebRtcPeer) (peers : WebRtcPeers)
      → Fits new.signals
      → lo < hi
      → Entries lo hi peers
      → Entries lo (hi + 1) (insert hi new peers)
  unfolding insert
  insert-Entries lo hi new [] n l h = (l, omega arith, n, tt)
  insert-Entries lo hi new ((i, peer) ∷ peers) n l (a, b, f, h) =
      let later : ltb hi i ≡ false = ground arith in
      let other : (i == hi) ≡ false = ground arith in
      rw later (rw other (a, omega arith, f, insert-Entries i hi new peers n b h))

  get_below :
      (id lo hi : ℕ) (peers : WebRtcPeers) → id ≤ lo → Entries lo hi peers → get id peers ≡ none
  unfolding get
  get_below id lo hi [] le h = refl
  get_below id lo hi ((i, peer) ∷ peers) le (a, b, f, h) =
      let other : (i == id) ≡ false = ground arith in
      rw other (get_below id i hi peers (omega arith) h)

  pub get-Fits :
      (id lo hi : ℕ) (peer : WebRtcPeer) (peers : WebRtcPeers)
      → Entries lo hi peers
      → get id peers ≡ some peer
      → (id < hi) × Fits peer.signals
  unfolding get
  get-Fits id lo hi peer [] h e = absurd (ground arith)
  get-Fits id lo hi peer ((i, p) ∷ peers) (a, b, f, h) e = elim (Bool-cases (i == id)) [
    | inl s ↦
        let same : p ≡ peer = ground arith in (omega (arith, (==_iff i id).0 s), rw (← same) f)
    | inr s ↦ get-Fits id i hi peer peers h (rw s at e)
  ]

  -- A peer that is found after the old ones have been dropped was there before, the same.
  pub get-live :
      (now id lo hi : ℕ) (peer : WebRtcPeer) (peers : WebRtcPeers)
      → Entries lo hi peers
      → get id (live now peers) ≡ some peer
      → get id peers ≡ some peer
  unfolding get live
  get-live now id lo hi peer [] h e = e
  get-live now id lo hi peer ((i, p) ∷ peers) (a, b, f, h) e =
      elim (Bool-cases (ltb (now - p.last_seen) webrtc_peer_ttl)) [
        | inl alive ↦ elim (Bool-cases (i == id)) [
          | inl s ↦ rw s (rw s at (rw alive at e))
          | inr s ↦ rw s (get-live now id i hi peer peers h (rw s at (rw alive at e)))
        ]
        | inr dead ↦ elim (Bool-cases (i == id)) [
          | inl s ↦
              let gone =
                get_below id i hi (live now peers) (omega (arith, (==_iff i id).0 s))
                  (live-Entries now i hi peers h) in
              absurd (ground arith)
          | inr s ↦ rw s (get-live now id i hi peer peers h (rw dead at e))
        ]
      ]

pub get-set :
    (j id : ℕ) (new : WebRtcPeer) (peers : WebRtcPeers)
    → get j (set id new peers)
      ≡ (if id == j then (if is_some (get id peers) then some new else none) else get j peers)
unfolding get set
get-set j id new [] = ground arith
get-set j id new ((i, peer) ∷ peers) = ground (arith, get-set j id new peers)

pub get-insert :
    (j id : ℕ) (new : WebRtcPeer) (peers : WebRtcPeers)
    → get j (insert id new peers) ≡ (if id == j then some new else get j peers)
unfolding get insert
get-insert j id new [] = refl
get-insert j id new ((i, peer) ∷ peers) = ground (arith, get-insert j id new peers)
