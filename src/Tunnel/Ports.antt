-- ===== src/Tunnel/Ports.antt =====
-- The port that src/service/tunnel.rs listens on.
use ii.Prelude.{
  ℕ, ◌+◌, ◌-◌, ◌≤◌, ◌<◌, ◌≡◌, suc, zero, Bool, true, false, Option, none, some, arith, Bool-cases,
  Option-cases, inl, inr, Result, ok, err, leb, subst, List,
}
use ii.Prelude.Number.{max_u16}
use ii.Tunnel.{bind_first, bind_tunnel_listener_from}

module _ (can_bind : ℕ → Bool) where
  abbrev AllTaken : ℕ → ℕ → Type 0
  AllTaken first behind = (port : ℕ) → first ≤ port → port < behind → can_bind port ≡ false

  -- The first of the ports that can be bound, or none where all are taken.
  abbrev pub FirstFree : ℕ → ℕ → Option ℕ → Type 0
  FirstFree first behind none = AllTaken first behind
  FirstFree first behind (some port) =
      (first ≤ port) × (port < behind) × (can_bind port ≡ true) × AllTaken first port

  shift :
      (first behind : ℕ) (found : Option ℕ)
      → can_bind first ≡ false
      → first < behind
      → FirstFree (first + 1) behind found
      → FirstFree first behind found
  shift first behind none taken l h = λ port a b. elim (Bool-cases (leb port first)) [
    | inl e ↦ let same : port ≡ first = ground arith in rw same taken
    | inr e ↦ h port (ground arith) b
  ]
  shift first behind (some found) taken l (a, b, c, h) = (
    omega arith,
    b,
    c,
    λ port d e. elim (Bool-cases (leb port first)) [
      | inl g ↦ let same : port ≡ first = ground arith in rw same taken
      | inr g ↦ h port (ground arith) e
    ],
  )

  bind_first-FirstFree : (n first : ℕ) → FirstFree first (first + n) (bind_first can_bind n first)
  unfolding bind_first
  bind_first-FirstFree zero first = λ port a b. absurd (omega arith)
  bind_first-FirstFree (suc n) first = elim (Bool-cases (can_bind first)) [
    | inl e ↦ rw (e, bind_first) (omega arith, omega arith, e, λ port a b. absurd (omega arith))
    | inr e ↦
        let ih : FirstFree (first + 1) (first + suc n) (bind_first can_bind n (first + 1)) =
          subst (λ k. FirstFree (first + 1) k (bind_first can_bind n (first + 1))) (omega arith)
            (bind_first-FirstFree n (first + 1)) in
        rw (e, bind_first) (shift first (first + suc n) _ e (omega arith) ih)
  ]

  abbrev pub bound : Result ℕ (List ℕ) → Option ℕ
  bound (ok port) = some port
  bound (err message) = none

  -- The search for a port ends with the lowest port from the given one up to 65535 that can be
  -- bound, and with an error exactly if none of them can.
  pub bind_tunnel_listener_from-FirstFree :
      (start_port : ℕ)
      → start_port ≤ max_u16
      → FirstFree start_port 65536 (bound (bind_tunnel_listener_from can_bind start_port))
  unfolding bind_tunnel_listener_from
  bind_tunnel_listener_from-FirstFree start_port h =
      let all : FirstFree start_port 65536 (bind_first can_bind (65536 - start_port) start_port) =
        subst (λ k. FirstFree start_port k (bind_first can_bind (65536 - start_port) start_port))
          (omega arith) (bind_first-FirstFree (65536 - start_port) start_port) in
      elim (Option-cases (bind_first can_bind (65536 - start_port) start_port)) [
        | inl e ↦ rw (e, bind_tunnel_listener_from) (rw e at all)
        | inr (port, e) ↦ rw (e, bind_tunnel_listener_from) (rw e at all)
      ]
