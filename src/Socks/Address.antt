-- ===== src/Socks/Address.antt =====
-- The addresses of src/service/socks5.rs, on a stream and in a datagram. Decoding of UTF-8 is a
-- parameter.
use ii.Prelude.{
  ℕ, zero, suc, ◌+◌, ◌-◌, ◌*◌, ◌/◌, ◌%◌, Bool, false, not, ◌&&◌, Option, none, some, [], ◌∷◌, ◌++◌,
  if◌then◌else◌, length, take, drop, leb, ◌==◌, and_then,
}
use ii.Prelude.Text.{Str, Bytes}

-- The octets of an address, four or sixteen, and a port.
pub data SocketAddr : Type 0 where
  v4 : Bytes → ℕ → SocketAddr
  v6 : Bytes → ℕ → SocketAddr

pub data TargetAddr : Type 0 where
  socket : SocketAddr → TargetAddr
  domain : Str → ℕ → TargetAddr

abbrev pub to_be_bytes : ℕ → Bytes
to_be_bytes port = port / 256 % 256 ∷ port % 256 ∷ []

abbrev pub from_be_bytes : Bytes → Option ℕ
from_be_bytes (a ∷ b ∷ []) = some (a * 256 + b)
from_be_bytes _ = none

unfoldable pub append_address : Bytes → SocketAddr → Bytes
append_address output (v4 octets port) = output ++ 1 ∷ octets ++ to_be_bytes port
append_address output (v6 octets port) = output ++ 4 ∷ octets ++ to_be_bytes port

-- `read_exact`: so many bytes of the stream, and the rest of it; `none` if it ends before.
abbrev pub read_exact : ℕ → Bytes → Option (Bytes × Bytes)
read_exact n input = if leb n (length input) then some (take n input, drop n input) else none

unfoldable pub read_port : Bytes → Option (ℕ × Bytes)
read_port input =
    and_then (read_exact 2 input)
      λ (bytes, rest). and_then (from_be_bytes bytes) λ port. some (port, rest)

-- `get` of a position and of a range, for the latter a range that does not run backwards.
abbrev pub get_at : Bytes → ℕ → Option ℕ
get_at [] n = none
get_at (b ∷ packet) zero = some b
get_at (b ∷ packet) (suc n) = get_at packet n

abbrev pub get_range : Bytes → ℕ → ℕ → Option Bytes
get_range packet from to =
    if leb to (length packet) then some (take (to - from) (drop from packet)) else none

unfoldable pub read_ip : (Bytes → ℕ → SocketAddr) → ℕ → Bytes → Option (TargetAddr × Bytes)
read_ip version n input = and_then (read_exact n input) λ (octets, rest).
    and_then (read_port rest) λ (port, rest2). some (socket (version octets port), rest2)

unfoldable pub port_at : Bytes → ℕ → Option ℕ
port_at packet offset = and_then (get_range packet offset (offset + 2)) from_be_bytes

unfoldable pub ip_at : (Bytes → ℕ → SocketAddr) → ℕ → Bytes → ℕ → Option (TargetAddr × ℕ)
ip_at version n packet offset = and_then (get_range packet offset (offset + n)) λ octets.
    and_then (port_at packet (offset + n))
      λ port. some (socket (version octets port), offset + n + 2)

-- Three bytes that are zero: the reserved ones and the fragment.
abbrev pub has_udp_header : Bytes → Bool
has_udp_header (a ∷ b ∷ c ∷ d ∷ packet) = a == 0 && b == 0 && c == 0
has_udp_header _ = false

module _ (utf8_decode : Bytes → Option Str) where
  unfoldable pub read_domain : Bytes → Option (TargetAddr × Bytes)
  read_domain [] = none
  read_domain (n ∷ input) = and_then (read_exact n input) λ (bytes, rest).
      and_then (utf8_decode bytes)
        λ text. and_then (read_port rest) λ (port, rest2). some (domain text port, rest2)

  -- The address behind its type, and what follows it on the stream.
  unfoldable pub read_target : Bytes → Option (TargetAddr × Bytes)
  unfolding read_ip read_domain
  read_target [] = none
  read_target (atyp ∷ input) =
      if atyp == 1
      then read_ip v4 4 input
      else if atyp == 3
      then read_domain input
      else if atyp == 4
      then read_ip v6 16 input
      else none

  unfoldable pub domain_at : Bytes → ℕ → Option (TargetAddr × ℕ)
  domain_at packet offset = and_then (get_at packet offset) λ n.
      and_then (get_range packet (offset + 1) (offset + 1 + n)) λ bytes.
        and_then (utf8_decode bytes) λ text.
          and_then (port_at packet (offset + 1 + n))
            λ port. some (domain text port, offset + 1 + n + 2)

  -- The address at a position of a datagram, and the position behind it.
  unfoldable pub parse_udp_target : Bytes → ℕ → Option (TargetAddr × ℕ)
  unfolding port_at ip_at domain_at
  parse_udp_target packet offset = and_then (get_at packet offset) λ atyp.
      if atyp == 1
      then ip_at v4 4 packet (offset + 1)
      else if atyp == 3
      then domain_at packet (offset + 1)
      else if atyp == 4
      then ip_at v6 16 packet (offset + 1)
      else none

  unfoldable pub parse_udp_request : Bytes → Option (TargetAddr × Bytes)
  parse_udp_request packet =
      if not (has_udp_header packet)
      then none
      else and_then (parse_udp_target packet 3)
          λ (target, offset). some (target, drop offset packet)

unfoldable pub encode_udp_response : SocketAddr → Bytes → Bytes
encode_udp_response source payload = append_address (0 ∷ 0 ∷ 0 ∷ []) source ++ payload
