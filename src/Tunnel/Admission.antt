-- ===== src/Tunnel/Admission.antt =====
-- Which streams src/service/tunnel.rs forwards.
use ii.Prelude.{
  ℕ, ◌+◌, if◌then◌else◌, ◌-◌, ◌<◌, ◌≡◌, ◌↔◌, refl, sym, ap, ◌∙◌, Bool, true, false, Option, none,
  some, ◌++◌, ltb, length, length-append, take, drop, take-drop, take-append_self, drop-append_self,
  arith, is_some, Bool-cases, Option-cases, inl, inr,
}
use ii.Prelude.Text.{Bytes, str_eq, str_eq_sound, str_eq_refl}
use ii.Tunnel.{
  tunnel_auth_prefix, tunnel_auth_len, tunnel_auth, check_auth, forwarding, is_forwarding,
  contacted, admit, serve_tunnel_stream,
}

-- The check lets through exactly what starts with the client's message for the key.
check_auth_complete :
    (access_key bytes : Bytes)
    → length access_key ≡ 32
    → check_auth access_key (tunnel_auth access_key ++ bytes) ≡ some bytes
unfolding check_auth tunnel_auth
check_auth_complete access_key bytes h =
    let long : ltb (length (tunnel_auth access_key ++ bytes)) tunnel_auth_len ≡ false =
      ground (arith, length-append access_key bytes) in
    let key : take 32 (access_key ++ bytes) ≡ access_key =
      rw (← h) (take-append_self access_key bytes) in
    let rest : drop 32 (access_key ++ bytes) ≡ bytes =
      rw (← h) (drop-append_self access_key bytes) in
    rw long (rw key (rw (str_eq_refl access_key) (rw rest refl)))

check_auth_sound :
    (access_key recv bytes : Bytes)
    → check_auth access_key recv ≡ some bytes
    → recv ≡ tunnel_auth access_key ++ bytes
unfolding check_auth tunnel_auth
check_auth_sound access_key recv bytes h =
    let auth = take tunnel_auth_len recv in
    elim (Bool-cases (ltb (length recv) tunnel_auth_len)) [
      | inl short ↦ absurd (ground arith)
      | inr long ↦ elim (Bool-cases (str_eq (take 5 auth) tunnel_auth_prefix)) [
        | inr other ↦ absurd (ground arith)
        | inl prefix ↦ elim (Bool-cases (str_eq (drop 5 auth) access_key)) [
          | inr other ↦ absurd (ground arith)
          | inl key ↦
              let rest : drop tunnel_auth_len recv ≡ bytes = ground arith in
              sym (take-drop tunnel_auth_len recv)
              ∙ ap (λ q. q ++ drop tunnel_auth_len recv) (sym (take-drop 5 auth))
              ∙ rw (str_eq_sound (take 5 auth) tunnel_auth_prefix prefix)
                  (rw (str_eq_sound (drop 5 auth) access_key key) (rw rest refl))
        ]
      ]
    ]

admit_forwards :
    (target_accepts : Bool) (permits : ℕ) (check : Option Bytes) (bytes : Bytes)
    → (admit target_accepts permits check ≡ (permits - 1, forwarding bytes))
      ↔ ((check ≡ some bytes) × (0 < permits) × (target_accepts ≡ true))
unfolding admit
admit_forwards target_accepts permits none bytes =
    (λ h. absurd (ground arith), λ h. absurd (ground arith))
admit_forwards true permits (some found) bytes =
    (λ h. (ground arith, ground arith, refl), λ h. ground arith)
admit_forwards false permits (some found) bytes =
    (λ h. absurd (ground arith), λ h. absurd (ground arith))

admit_contacts :
    (target_accepts : Bool) (permits : ℕ) (check : Option Bytes)
    → (contacted (admit target_accepts permits check).1 ≡ true)
      ↔ ((is_some check ≡ true) × (0 < permits))
unfolding admit
admit_contacts target_accepts permits none =
    (λ h. absurd (ground arith), λ h. absurd (ground arith))
admit_contacts true permits (some found) = (λ h. (refl, ground arith), λ h. ground arith)
admit_contacts false permits (some found) = (λ h. (refl, ground arith), λ h. ground arith)

-- What is taken of the permits is one for a forwarded stream.
admit_permits :
    (target_accepts : Bool) (permits : ℕ) (check : Option Bytes)
    → (admit target_accepts permits check).0
        + (if is_forwarding (admit target_accepts permits check).1 then 1 else 0)
      ≡ permits
unfolding admit
admit_permits target_accepts permits none = omega arith
admit_permits true permits (some found) = ground arith
admit_permits false permits (some found) = ground arith

-- A stream is forwarded, from the given bytes on, exactly if it begins with what the client of a
-- ticket with this key sends, followed by these bytes, a permit is free, and the target accepts.
-- A stream that is forwarded takes one permit, and any other stream takes none. The target is
-- contacted exactly if the stream begins so and a permit is free.
pub serve_tunnel_stream_iff :
    (access_key recv bytes : Bytes) (target_accepts : Bool) (permits : ℕ)
    → length access_key ≡ 32
    → ((serve_tunnel_stream access_key target_accepts recv permits
          ≡ (permits - 1, forwarding bytes))
        ↔ ((recv ≡ tunnel_auth access_key ++ bytes) × (0 < permits) × (target_accepts ≡ true)))
      × ((serve_tunnel_stream access_key target_accepts recv permits).0
            + (if is_forwarding (serve_tunnel_stream access_key target_accepts recv permits).1
                then 1
                else 0)
          ≡ permits)
      × ((contacted (serve_tunnel_stream access_key target_accepts recv permits).1 ≡ true)
          ↔ (((rest : Bytes) × (recv ≡ tunnel_auth access_key ++ rest)) × (0 < permits)))
unfolding serve_tunnel_stream
serve_tunnel_stream_iff access_key recv bytes target_accepts permits h =
    let forwards = admit_forwards target_accepts permits (check_auth access_key recv) bytes in
    let contacts = admit_contacts target_accepts permits (check_auth access_key recv) in
    (
      (
        λ e.
            let (found, free, accepts) = forwards.0 e in
            (check_auth_sound access_key recv bytes found, free, accepts),
        λ (e, free, accepts).
            forwards.1 (rw e (check_auth_complete access_key bytes h), free, accepts),
      ),
      admit_permits target_accepts permits (check_auth access_key recv),
      (
        λ e.
            let (found, free) = contacts.0 e in
            elim (Option-cases (check_auth access_key recv)) [
              | inl missing ↦ absurd (ground arith)
              | inr (rest, k) ↦ ((rest, check_auth_sound access_key recv rest k), free)
            ],
        λ ((rest, e), free).
            contacts.1 (rw e (rw (check_auth_complete access_key rest h) refl), free),
      ),
    )
