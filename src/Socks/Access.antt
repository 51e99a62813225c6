-- ===== src/Socks/Access.antt =====
-- Who gets through the negotiation of src/service/socks5.rs.
use ii.Prelude.{
  ℕ, ◌≡◌, ◌↔◌, refl, sym, true, ◌&&◌, some, [], ◌∷◌, ◌++◌, length, length-append, take, length-take,
  take-drop, drop, take-append_self, drop-append_self, leb, ◌==◌, arith, Bool-cases, Option-cases,
  inl, inr,
}
use ii.Prelude.Text.{Bytes, str_eq, str_eq_iff, str_eq_refl}
use ii.Socks.Address.{read_exact}
use ii.Socks.Session.{
  Credentials, accepted, contains_byte, check_password, read_password, select_method,
  negotiate_auth,
}

read_exact_sound :
    (n : ℕ) (input a b : Bytes)
    → read_exact n input ≡ some (a, b)
    → (length a ≡ n) × (input ≡ a ++ b)
read_exact_sound n input a b h = elim (Bool-cases (leb n (length input))) [
  | inl e ↦
      let one : a ≡ take n input = ground arith in
      let two : b ≡ drop n input = ground arith in
      rw (one, two) (length-take n input (ground arith), sym (take-drop n input))
  | inr e ↦ absurd (ground arith)
]

read_exact_self : (a b : Bytes) → read_exact (length a) (a ++ b) ≡ some (a, b)
read_exact_self a b =
    let fits : leb (length a) (length (a ++ b)) ≡ true = ground (arith, length-append a b) in
    rw (fits, take-append_self a b, drop-append_self a b) refl

-- The message with a user name and a password, and what follows it.
abbrev password_message : Credentials → Bytes → Bytes
password_message c rest =
    1 ∷ length c.username ∷ (c.username ++ (length c.password ∷ (c.password ++ rest)))

read_password_sound :
    (c : Credentials) (sent username input answer rest : Bytes)
    → read_password c sent username input ≡ accepted answer rest
    → (username ≡ c.username)
      × (input ≡ length c.password ∷ (c.password ++ rest))
      × (answer ≡ sent ++ 1 ∷ 0 ∷ [])
unfolding read_password
read_password_sound c sent username [] answer rest h = absurd (ground arith)
read_password_sound c sent username (size ∷ input) answer rest h =
    elim (Option-cases (read_exact size input)) [
      | inl e ↦ absurd (ground arith)
      | inr ((password, more), e) ↦
          elim (Bool-cases (str_eq username c.username && str_eq password c.password)) [
            | inr f ↦ absurd (ground arith)
            | inl f ↦
                let (sized, parts) = read_exact_sound size input password more e in
                let user = (str_eq_iff username c.username).0 (ground arith) in
                let pass = (str_eq_iff password c.password).0 (ground arith) in
                let same : more ≡ rest = ground arith in
                let told : answer ≡ sent ++ 1 ∷ 0 ∷ [] = ground arith in
                (user, rw (parts, ← sized, pass, same) refl, told)
          ]
    ]

check_password_sound :
    (c : Credentials) (sent input answer rest : Bytes)
    → check_password c sent input ≡ accepted answer rest
    → (input ≡ password_message c rest) × (answer ≡ sent ++ 1 ∷ 0 ∷ [])
unfolding check_password
check_password_sound c sent [] answer rest h = absurd (ground arith)
check_password_sound c sent (version ∷ []) answer rest h = absurd (ground arith)
check_password_sound c sent (version ∷ size ∷ input) answer rest h =
    elim (Bool-cases (version == 1)) [
      | inr v ↦ absurd (ground arith)
      | inl v ↦ elim (Option-cases (read_exact size input)) [
        | inl e ↦ absurd (ground arith)
        | inr ((username, more), e) ↦
            let (sized, parts) = read_exact_sound size input username more e in
            let (user, message, told) =
              read_password_sound c sent username more answer rest
                (rw (v, e, check_password) at h) in
            let one : version ≡ 1 = ground arith in
            (rw (one, parts, ← sized, user, message) refl, told)
      ]
    ]

check_password_complete :
    (c : Credentials) (sent rest : Bytes)
    → check_password c sent (password_message c rest) ≡ accepted (sent ++ 1 ∷ 0 ∷ []) rest
unfolding check_password read_password
check_password_complete c sent rest =
    rw (read_exact_self c.username (length c.password ∷ (c.password ++ rest)), check_password)
      (rw
        (
          read_exact_self c.password rest,
          str_eq_refl c.username,
          str_eq_refl c.password,
          read_password,
        )
        refl)

-- The bytes of a client that offers the methods, among them that of a user name and a password, and
-- gives these as they are set.
abbrev pub login : Credentials → Bytes → Bytes → Bytes
login c methods rest = 5 ∷ length methods ∷ (methods ++ password_message c rest)

negotiate_auth_sound :
    (c : Credentials) (input sent rest : Bytes)
    → negotiate_auth (some c) input ≡ accepted sent rest
    → (methods : Bytes) × (input ≡ login c methods rest)
      × (contains_byte 2 methods ≡ true)
      × (sent ≡ 5 ∷ 2 ∷ 1 ∷ 0 ∷ [])
unfolding negotiate_auth select_method
negotiate_auth_sound c [] sent rest h = absurd (ground arith)
negotiate_auth_sound c (version ∷ []) sent rest h = absurd (ground arith)
negotiate_auth_sound c (version ∷ count ∷ input) sent rest h = elim (Bool-cases (version == 5)) [
  | inr v ↦ absurd (ground arith)
  | inl v ↦ elim (Option-cases (read_exact count input)) [
    | inl e ↦ absurd (ground arith)
    | inr ((methods, more), e) ↦ elim (Bool-cases (contains_byte 2 methods)) [
      | inr f ↦ absurd (ground arith)
      | inl f ↦
          let (sized, parts) = read_exact_sound count input methods more e in
          let (message, told) =
            check_password_sound c (5 ∷ 2 ∷ []) more sent rest
              (rw (v, e, f, negotiate_auth, select_method) at h) in
          let five : version ≡ 5 = ground arith in
          (methods, rw (five, parts, ← sized, message) refl, f, told)
    ]
  ]
]

negotiate_auth_complete :
    (c : Credentials) (methods rest : Bytes)
    → contains_byte 2 methods ≡ true
    → negotiate_auth (some c) (login c methods rest) ≡ accepted (5 ∷ 2 ∷ 1 ∷ 0 ∷ []) rest
unfolding negotiate_auth select_method
negotiate_auth_complete c methods rest h =
    rw (read_exact_self methods (password_message c rest), negotiate_auth)
      (rw (h, select_method) (check_password_complete c (5 ∷ 2 ∷ []) rest))

-- With a user name and a password, a client is accepted exactly if its bytes are a greeting that
-- offers the method for them, and the user name and the password as they are set, each behind its
-- length; what follows is left for the request, and the client has been told that it is accepted.
pub negotiate_auth_iff :
    (c : Credentials) (input sent rest : Bytes)
    → (negotiate_auth (some c) input ≡ accepted sent rest) ↔ (
        (methods : Bytes) × (input ≡ login c methods rest)
        × (contains_byte 2 methods ≡ true)
        × (sent ≡ 5 ∷ 2 ∷ 1 ∷ 0 ∷ []))
negotiate_auth_iff c input sent rest = (
  negotiate_auth_sound c input sent rest,
  λ p. rw (p.1, p.3) (negotiate_auth_complete c p.0 rest p.2),
)
