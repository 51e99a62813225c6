-- ===== src/Socks/Session.antt =====
-- A connection of src/service/socks5.rs. What the client sends is the bytes of its stream; what the
-- other hosts do is the record `Net`.
use ii.Prelude.{
  ℕ, Bool, not, ◌&&◌, ◌||◌, Option, none, some, [], ◌∷◌, ◌++◌, any, if◌then◌else◌, ◌==◌,
}
use ii.Prelude.Text.{Str, Bytes, str_eq}
use ii.Socks.Address.{
  SocketAddr, v4, TargetAddr, socket, domain, append_address, read_exact, read_target,
}

pub record Credentials : Type 0 where
  pub username : Bytes
  pub password : Bytes

-- The end of a negotiation: the stream breaks, the client is refused, or it is accepted; with what
-- has been sent to it, and what it has still to say.
pub data Negotiated : Type 0 where
  broken : Bytes → Negotiated
  refused : Bytes → Negotiated
  accepted : Bytes → Bytes → Negotiated

unfoldable pub contains_byte : ℕ → Bytes → Bool
contains_byte m = any (λ b. b == m)

-- The part of `negotiate_auth` that reads a user name and a password; `sent` is the selection.
unfoldable pub read_password : Credentials → Bytes → Bytes → Bytes → Negotiated
read_password credentials sent username [] = broken sent
read_password credentials sent username (size ∷ input) = elim (read_exact size input) [
  | none ↦ broken sent
  | some (password, rest) ↦
      if str_eq username credentials.username && str_eq password credentials.password
      then accepted (sent ++ 1 ∷ 0 ∷ []) rest
      else refused (sent ++ 1 ∷ 1 ∷ [])
]

unfoldable pub check_password : Credentials → Bytes → Bytes → Negotiated
check_password credentials sent (version ∷ size ∷ input) =
    if not (version == 1) then refused (sent ++ 1 ∷ 1 ∷ []) else elim (read_exact size input) [
      | none ↦ broken sent
      | some (username, rest) ↦ read_password credentials sent username rest
    ]
check_password credentials sent _ = broken sent

-- The method that is selected, if the client offers it.
unfoldable pub select_method : Option Credentials → Bytes → Option ℕ
unfolding contains_byte
select_method (some credentials) methods = if contains_byte 2 methods then some 2 else none
select_method none methods = if contains_byte 0 methods then some 0 else none

unfoldable pub negotiate_auth : Option Credentials → Bytes → Negotiated
negotiate_auth credentials [] = broken []
negotiate_auth credentials (version ∷ []) = broken []
negotiate_auth credentials (version ∷ count ∷ input) =
    if not (version == 5) then refused [] else elim (read_exact count input) [
      | none ↦ broken []
      | some (methods, rest) ↦ elim (select_method credentials methods) [
        | none ↦ refused (5 ∷ 0xff ∷ [])
        | some selected ↦ elim credentials [
          | none ↦ accepted (5 ∷ selected ∷ []) rest
          | some c ↦ check_password c (5 ∷ selected ∷ []) rest
        ]
      ]
    ]

-- The kinds of errors that `reply_code` tells apart.
pub data ErrorKind : Type 0 where
  connection_refused network_unreachable host_unreachable not_found timed_out permission_denied
        other :
      ErrorKind

unfoldable pub reply_code : ErrorKind → ℕ
reply_code connection_refused = 5
reply_code network_unreachable = 3
reply_code host_unreachable = 4
reply_code not_found = 4
reply_code timed_out = 6
reply_code permission_denied = 2
reply_code other = 1

unfoldable pub write_reply : ℕ → Option SocketAddr → Bytes
write_reply code address =
    append_address (5 ∷ code ∷ 0 ∷ [])
      (elim address [ some a ↦ a | none ↦ v4 (0 ∷ 0 ∷ 0 ∷ 0 ∷ []) 0 ])

-- A call under a timeout.
pub data Timed (A : Type 0) : Type 0 where
  done : A → Timed A
  failed : ErrorKind → Timed A
  elapsed : Timed A

-- What the other hosts do: looking up a name, and connecting to an address, which gives the local
-- one.
pub record Net : Type 0 where
  pub lookup_host : Str → ℕ → Timed SocketAddr
  pub connect : SocketAddr → Timed (Option SocketAddr)

unfoldable pub resolve_target : Net → TargetAddr → Timed SocketAddr
resolve_target net (socket address) = done address
resolve_target net (domain name port) = net.lookup_host name port

-- What the client is told, and the address that its stream is then forwarded to.
unfoldable pub connect : Net → TargetAddr → Bytes × Option SocketAddr
connect net target = elim (resolve_target net target) [
  | failed kind ↦ (write_reply (reply_code kind) none, none)
  | elapsed ↦ (write_reply 6 none, none)
  | done address ↦ elim (net.connect address) [
    | failed kind ↦ (write_reply (reply_code kind) none, none)
    | elapsed ↦ (write_reply 6 none, none)
    | done bound ↦ (write_reply 0 bound, some address)
  ]
]

-- What a connection comes to, behind the bytes that the client was sent: it is over, or it goes on
-- as one of the three commands.
pub data Served : Type 0 where
  closed : Bytes → Served
  dropped : Bytes → Served
  connecting : Bytes → TargetAddr → Served
  binding : Bytes → TargetAddr → Served
  associating : Bytes → Served

module _ (utf8_decode : Bytes → Option Str) where
  -- Behind the negotiation: the request.
  unfoldable pub serve_request : Bytes → Bytes → Served
  serve_request sent (version ∷ command ∷ reserved ∷ input) =
      if not (version == 5) || not (reserved == 0)
      then closed (sent ++ write_reply 1 none)
      else elim (read_target utf8_decode input) [
        | none ↦ closed (sent ++ write_reply 8 none)
        | some (target, rest) ↦
            if command == 1
            then connecting sent target
            else if command == 2
            then binding sent target
            else if command == 3
            then associating sent
            else closed (sent ++ write_reply 7 none)
      ]
  serve_request sent _ = dropped sent

  unfoldable pub serve_connection : Option Credentials → Bytes → Served
  serve_connection credentials input = elim (negotiate_auth credentials input) [
    | broken sent ↦ dropped sent
    | refused sent ↦ closed sent
    | accepted sent rest ↦ serve_request sent rest
  ]
