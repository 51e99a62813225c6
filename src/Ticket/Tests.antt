-- ===== src/Ticket/Tests.antt =====
-- The tickets over a small format: endpoints are numbers, only tunnel tickets are serialized, and
-- text is the bytes themselves.
use ii.Prelude.{ℕ, zero, suc, ◌≡◌, refl, ◌++◌, arith, Option, none, some, [], ◌∷◌, ok, err}
use ii.Prelude.Text.{Str, Bytes, codes}
use ii.Ticket.Model.{Ticket, file, tunnel, TunnelRelayMode, default, self_signed_relay_only}
use ii.Ticket.Codec.{
  Format, IsLawful, LegacyTicket, LegacyS3Ticket, Error, encode, decode, prefix, decode_bytes,
  decode_ticket, accepted, refused,
}
use ii.Ticket.RoundTrip.{
  IsCurrent, unsupported_of, decode-encode, decode-encode_stale, decode-IsCurrent,
}

abbrev mode_byte : TunnelRelayMode → ℕ
mode_byte default = 0
mode_byte self_signed_relay_only = 1
mode_byte TunnelRelayMode.trusted_relay_only = 2

abbrev write_ticket : Ticket ℕ → Option Bytes
write_ticket (tunnel t) = some (t.version ∷ t.endpoint ∷ mode_byte t.relay_mode ∷ t.access_key)
write_ticket _ = none

abbrev mode_of : ℕ → TunnelRelayMode
mode_of zero = default
mode_of (suc zero) = self_signed_relay_only
mode_of (suc (suc n)) = TunnelRelayMode.trusted_relay_only

mode_of-mode_byte : (m : TunnelRelayMode) → mode_of (mode_byte m) ≡ m
mode_of-mode_byte default = refl
mode_of-mode_byte _ = refl

abbrev read_ticket : Bytes → Option (Ticket ℕ)
read_ticket (v ∷ e ∷ m ∷ key) =
    some (tunnel (record { version = v; endpoint = e; access_key = key; relay_mode = mode_of m }))
read_ticket _ = none

abbrev an_old_ticket : LegacyTicket ℕ
an_old_ticket = record {
  version = 1;
  endpoint = 5;
  name = codes "legacy.txt";
  kind = file;
  size = some 5;
  content_md5 = none;
}

abbrev an_old_s3_ticket : LegacyS3Ticket
an_old_s3_ticket = record {
  version = 3;
  download_url = codes "https://example.com/file";
  object_key = codes "ii/abc";
  common = record { name = codes "file.txt"; kind = file; size = some 12; content_md5 = none };
}

-- One byte is the old ticket, none is the old S3 ticket.
abbrev small_format : Format ℕ
small_format = record {
  to_stdvec = write_ticket;
  from_ticket = read_ticket;
  from_legacy_s3 = λ b. elim b [ [] ↦ some an_old_s3_ticket | _ ∷ _ ↦ none ];
  from_legacy = λ b. elim b [ [] ↦ none | _ ∷ _ ↦ some an_old_ticket ];
  base64_encode = λ b. b;
  base64_decode = λ s. some s;
}

small_reads :
    (t : Ticket ℕ) (bytes : Bytes) → write_ticket t ≡ some bytes → read_ticket bytes ≡ some t
small_reads (tunnel t) bytes h = ground (arith, mode_of-mode_byte t.relay_mode)
small_reads _ bytes h = cc

small_format-IsLawful : IsLawful small_format
small_format-IsLawful = record {
  from_ticket-to_stdvec = small_reads;
  base64_decode-encode = λ b. refl;
}

abbrev a_tunnel : Ticket ℕ
a_tunnel =
    tunnel (record { version = 9; endpoint = 7; access_key = 4 ∷ 2 ∷ []; relay_mode = default })

abbrev a_stale_tunnel : Ticket ℕ
a_stale_tunnel =
    tunnel (record { version = 8; endpoint = 7; access_key = 4 ∷ 2 ∷ []; relay_mode = default })

encode_tests :
    (encode small_format a_tunnel ≡ ok (prefix ++ 9 ∷ 7 ∷ 0 ∷ 4 ∷ 2 ∷ []))
    × (encode small_format a_stale_tunnel ≡ ok (prefix ++ 8 ∷ 7 ∷ 0 ∷ 4 ∷ 2 ∷ []))
    × (decode small_format (codes "i9") ≡ err Error.prefix_missing)
    × (decode small_format (codes "ii1abc") ≡ err (Error.unsupported_tunnel b'a'))
unfolding encode decode decode_bytes decode_ticket accepted refused
encode_tests = (refl, refl, refl, refl)

decode-encode_example : decode small_format (prefix ++ 9 ∷ 7 ∷ 0 ∷ 4 ∷ 2 ∷ []) ≡ ok a_tunnel
decode-encode_example =
    decode-encode small_format small_format-IsLawful a_tunnel refl encode_tests.0

decode-encode_stale_example :
    decode small_format (prefix ++ 8 ∷ 7 ∷ 0 ∷ 4 ∷ 2 ∷ []) ≡ err (unsupported_of a_stale_tunnel)
decode-encode_stale_example =
    decode-encode_stale small_format small_format-IsLawful a_stale_tunnel (omega arith)
      encode_tests.1

decode-IsCurrent_example :
    IsCurrent a_tunnel × ((body : Str) × (prefix ++ 9 ∷ 7 ∷ 0 ∷ 4 ∷ 2 ∷ [] ≡ prefix ++ body))
decode-IsCurrent_example =
    decode-IsCurrent small_format (prefix ++ 9 ∷ 7 ∷ 0 ∷ 4 ∷ 2 ∷ []) a_tunnel decode-encode_example
