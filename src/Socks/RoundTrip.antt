-- ===== src/Socks/RoundTrip.antt =====
-- The addresses of src/service/socks5.rs are read as they are written, from a stream and from a
-- datagram.
use ii.Prelude.{
  ℕ, zero, suc, ◌+◌, ◌-◌, ◌<◌, ◌≤◌, ◌≡◌, ◌∙◌, refl, sym, ap, true, false, Option, none, some, [],
  ◌∷◌, ◌++◌, if◌then◌else◌, length, length-append, take, drop, take-append_self, drop-append_self,
  append_assoc, leb, ◌==◌, and_then, arith, Bool-cases, Option-cases, inl, inr,
}
use ii.Prelude.Text.{Str, Bytes}
use ii.Socks.Address.{
  SocketAddr, v4, v6, socket, to_be_bytes, from_be_bytes, append_address, read_exact, read_port,
  get_at, get_range, port_at, ip_at, domain_at, read_ip, read_domain, read_target, parse_udp_target,
  parse_udp_request, encode_udp_response, has_udp_header,
}

-- The octets of the version, and a port of 16 bits.
abbrev IsAddress : SocketAddr → Type 0
IsAddress (v4 octets port) = (length octets ≡ 4) × (port < 65536)
IsAddress (v6 octets port) = (length octets ≡ 16) × (port < 65536)

from_be_bytes-to_be_bytes : (port : ℕ) → port < 65536 → from_be_bytes (to_be_bytes port) ≡ some port
from_be_bytes-to_be_bytes port h = ap some (omega arith)

read_exact-append :
    (n : ℕ) (xs ys : Bytes) → length xs ≡ n → read_exact n (xs ++ ys) ≡ some (xs, ys)
read_exact-append n xs ys h =
    let fits : leb (length xs) (length (xs ++ ys)) ≡ true = ground (arith, length-append xs ys) in
    rw (← h) (rw (fits, take-append_self xs ys, drop-append_self xs ys) refl)

read_port-append :
    (port : ℕ) (rest : Bytes)
    → port < 65536
    → read_port (to_be_bytes port ++ rest) ≡ some (port, rest)
unfolding read_port
read_port-append port rest h =
    rw (read_exact-append 2 (to_be_bytes port) rest refl, read_port)
      (ap (λ p. some (p, rest)) (omega arith))

length-drop : (n : ℕ) (xs : Bytes) → length (drop n xs) ≡ length xs - n
length-drop zero xs = omega arith
length-drop (suc n) [] = omega arith
length-drop (suc n) (x ∷ xs) = omega (arith, length-drop n xs)

drop-nil : (n : ℕ) → drop {A = ℕ} n [] ≡ []
drop-nil zero = refl
drop-nil (suc n) = refl

drop-drop : (n m : ℕ) (xs : Bytes) → drop (n + m) xs ≡ drop m (drop n xs)
drop-drop zero m xs = ap (λ k. drop k xs) (omega arith)
drop-drop (suc n) m [] = drop-nil (suc n + m) ∙ sym (drop-nil m)
drop-drop (suc n) m (x ∷ xs) =
    let step : suc n + m ≡ suc (n + m) = omega arith in
    ap (λ k. drop k (x ∷ xs)) step ∙ drop-drop n m xs

get_at-drop :
    (packet : Bytes) (n b : ℕ) (rest : Bytes) → drop n packet ≡ b ∷ rest → get_at packet n ≡ some b
get_at-drop [] zero b rest h = absurd (ground arith)
get_at-drop [] (suc n) b rest h = absurd (ground arith)
get_at-drop (x ∷ packet) zero b rest h = ground arith
get_at-drop (x ∷ packet) (suc n) b rest h = get_at-drop packet n b rest h

get_at-nil : (packet : Bytes) (n : ℕ) → drop n packet ≡ [] → get_at packet n ≡ none
get_at-nil [] n h = refl
get_at-nil (x ∷ packet) zero h = absurd (ground arith)
get_at-nil (x ∷ packet) (suc n) h = get_at-nil packet n h

-- A range of the datagram is what the stream that starts there gives.
range_missing :
    (packet : Bytes) (offset n : ℕ)
    → offset ≤ length packet
    → leb n (length (drop offset packet)) ≡ false
    → get_range packet offset (offset + n) ≡ none
range_missing packet offset n le h =
    let out : leb (offset + n) (length packet) ≡ false =
      ground (arith, length-drop offset packet) in
    rw out refl

range_found :
    (packet : Bytes) (offset n : ℕ)
    → offset ≤ length packet
    → leb n (length (drop offset packet)) ≡ true
    → get_range packet offset (offset + n) ≡ some (take n (drop offset packet))
range_found packet offset n le h =
    let inside : leb (offset + n) (length packet) ≡ true =
      ground (arith, length-drop offset packet) in
    let size : offset + n - offset ≡ n = omega arith in rw (inside, size) refl

port_at-read_port :
    (packet : Bytes) (offset : ℕ)
    → offset ≤ length packet
    → and_then (port_at packet offset) (λ port. some (port, drop (offset + 2) packet))
      ≡ read_port (drop offset packet)
unfolding port_at read_port
port_at-read_port packet offset le = elim (Bool-cases (leb 2 (length (drop offset packet)))) [
  | inl e ↦
      rw (range_found packet offset 2 le e, e, port_at, read_port)
        (rw (drop-drop offset 2 packet) refl)
  | inr e ↦ rw (range_missing packet offset 2 le e, e, port_at, read_port) refl
]

ip_at-read_ip :
    (version : Bytes → ℕ → SocketAddr) (packet : Bytes) (n offset : ℕ)
    → offset ≤ length packet
    → and_then (ip_at version n packet offset) (λ (target, k). some (target, drop k packet))
      ≡ read_ip version n (drop offset packet)
unfolding ip_at read_ip
ip_at-read_ip version packet n offset le = elim (Bool-cases (leb n (length (drop offset packet)))) [
  | inr e ↦ rw (range_missing packet offset n le e, e, ip_at, read_ip) refl
  | inl e ↦
      let inside : offset + n ≤ length packet = ground (arith, length-drop offset packet) in
      let port =
        port_at-read_port packet (offset + n) inside ∙ ap read_port (drop-drop offset n packet) in
      rw (range_found packet offset n le e, e, ip_at, read_ip)
        (rw (← port) (elim (Option-cases (port_at packet (offset + n))) [
          | inl f ↦ rw f refl
          | inr (k, f) ↦ rw f refl
        ]))
]

read_ip-append :
    (version : Bytes → ℕ → SocketAddr) (n : ℕ) (octets : Bytes) (port : ℕ) (rest : Bytes)
    → length octets ≡ n
    → port < 65536
    → read_ip version n (octets ++ to_be_bytes port ++ rest)
      ≡ some (socket (version octets port), rest)
unfolding read_ip
read_ip-append version n octets port rest h k =
    ap (read_ip version n) (append_assoc octets (to_be_bytes port) rest)
    ∙ rw (read_exact-append n octets (to_be_bytes port ++ rest) h, read_ip)
        (rw (read_port-append port rest k) refl)

module _ (utf8_decode : Bytes → Option Str) where
  domain_at-read_domain :
      (packet : Bytes) (offset : ℕ) (stream : Bytes)
      → drop offset packet ≡ stream
      → and_then (domain_at utf8_decode packet offset) (λ (target, k). some (target, drop k packet))
        ≡ read_domain utf8_decode stream
  unfolding domain_at read_domain
  domain_at-read_domain packet offset [] h = rw (get_at-nil packet offset h, domain_at) refl
  domain_at-read_domain packet offset (n ∷ rest) h =
      let next : drop (offset + 1) packet ≡ rest = drop-drop offset 1 packet ∙ ap (drop 1) h in
      let size = ap length h in
      let start : offset + 1 ≤ length packet = ground (arith, length-drop offset packet) in
      elim (Bool-cases (leb n (length rest))) [
        | inr e ↦
            let missing =
              range_missing packet (offset + 1) n start (ap (λ t. leb n (length t)) next ∙ e) in
            rw (get_at-drop packet offset n rest h, missing, e, domain_at, read_domain) refl
        | inl e ↦
            let found =
              range_found packet (offset + 1) n start (ap (λ t. leb n (length t)) next ∙ e) in
            let found_rest : get_range packet (offset + 1) (offset + 1 + n) ≡ some (take n rest) =
              found ∙ ap (λ t. some (take n t)) next in
            let inside : offset + 1 + n ≤ length packet =
              ground (arith, length-drop (offset + 1) packet, ap length next) in
            let port =
              port_at-read_port packet (offset + 1 + n) inside
              ∙ ap read_port (drop-drop (offset + 1) n packet ∙ ap (drop n) next) in
            rw (get_at-drop packet offset n rest h, found_rest, e, domain_at, read_domain)
              (rw (← port) (elim (Option-cases (utf8_decode (take n rest))) [
                | inl g ↦ rw g refl
                | inr (text, g) ↦ rw g (elim (Option-cases (port_at packet (offset + 1 + n))) [
                  | inl f ↦ rw f refl
                  | inr (k, f) ↦ rw f refl
                ])
              ]))
      ]

  parse_udp_target-read_target :
      (packet : Bytes) (offset : ℕ) (stream : Bytes)
      → drop offset packet ≡ stream
      → and_then
          (parse_udp_target utf8_decode packet offset)
          (λ (target, k). some (target, drop k packet))
        ≡ read_target utf8_decode stream
  unfolding parse_udp_target read_target
  parse_udp_target-read_target packet offset [] h =
      rw (get_at-nil packet offset h, parse_udp_target) refl
  parse_udp_target-read_target packet offset (atyp ∷ rest) h =
      let next : drop (offset + 1) packet ≡ rest = drop-drop offset 1 packet ∙ ap (drop 1) h in
      let size = ap length h in
      let start : offset + 1 ≤ length packet = ground (arith, length-drop offset packet) in
      let four = ip_at-read_ip v4 packet 4 (offset + 1) start ∙ ap (read_ip v4 4) next in
      let sixteen = ip_at-read_ip v6 packet 16 (offset + 1) start ∙ ap (read_ip v6 16) next in
      let name = domain_at-read_domain packet (offset + 1) rest next in
      rw (get_at-drop packet offset atyp rest h, parse_udp_target, read_target)
        (elim (Bool-cases (atyp == 1)) [
          | inl e ↦ rw e four
          | inr e ↦ rw e (elim (Bool-cases (atyp == 3)) [
            | inl f ↦ rw f name
            | inr f ↦
                rw f (elim (Bool-cases (atyp == 4)) [ inl g ↦ rw g sixteen | inr g ↦ rw g refl ])
          ])
        ])

  -- A datagram is parsed exactly if it begins with three zero bytes and the stream parser reads an
  -- address from what follows them; the address is the same, and the payload is what the stream
  -- parser leaves.
  pub parse_udp_request-read_target :
      (packet : Bytes)
      → parse_udp_request utf8_decode packet
        ≡ (if has_udp_header packet then read_target utf8_decode (drop 3 packet) else none)
  unfolding parse_udp_request
  parse_udp_request-read_target packet = elim (Bool-cases (has_udp_header packet)) [
    | inl e ↦ rw (e, parse_udp_request) (parse_udp_target-read_target packet 3 (drop 3 packet) refl)
    | inr e ↦ rw (e, parse_udp_request) refl
  ]

  -- An address is read back from a stream, with what follows it.
  read_target-append_address :
      (address : SocketAddr) (rest : Bytes)
      → IsAddress address
      → read_target utf8_decode (append_address [] address ++ rest) ≡ some (socket address, rest)
  unfolding append_address read_target read_ip
  read_target-append_address (v4 octets port) rest (h, k) = read_ip-append v4 4 octets port rest h k
  read_target-append_address (v6 octets port) rest (h, k) =
      read_ip-append v6 16 octets port rest h k

  -- A datagram that the proxy sends to its client is read back as the address of its source and
  -- its payload, if the address has the octets of its version and a port of 16 bits.
  pub parse_udp_request-encode_udp_response :
      (source : SocketAddr) (payload : Bytes)
      → IsAddress source
      → parse_udp_request utf8_decode (encode_udp_response source payload)
        ≡ some (socket source, payload)
  unfolding encode_udp_response append_address
  parse_udp_request-encode_udp_response (v4 octets port) payload h =
      parse_udp_request-read_target (encode_udp_response (v4 octets port) payload)
      ∙ read_target-append_address (v4 octets port) payload h
  parse_udp_request-encode_udp_response (v6 octets port) payload h =
      parse_udp_request-read_target (encode_udp_response (v6 octets port) payload)
      ∙ read_target-append_address (v6 octets port) payload h
