-- ===== src/Ticket/Codec.antt =====
-- src/ticket/codec.rs and src/ticket/legacy.rs: a ticket as text, and the tickets of older versions.
-- The serializer `postcard` and the `base64` engine are the record `Format`; what the codec relies
-- on is the record `IsLawful`.
use ii.Prelude.{
  ℕ, Bool, not, ◌&&◌, ◌≡◌, Option, none, some, ◌++◌, ◌==◌, if◌then◌else◌, Result, ok, err, ◌>>=◌,
  ok_or,
}
use ii.Prelude.Text.{Str, Bytes, codes, strip_prefix}
use ii.Ticket.Model.{
  PayloadKind, TicketCommon, Ticket, peer, s3, web_dav, relay_only, trusted_relay_only, ftp, sftp,
  tunnel, new_peer,
}

abbrev pub prefix : Str
prefix = codes "ii1"

pub record LegacyTicket (Endpoint : Type 0) : Type 0 where
  pub version : ℕ
  pub endpoint : Endpoint
  pub name : Str
  pub kind : PayloadKind
  pub size : Option ℕ
  pub content_md5 : Option Bytes

pub record LegacyS3Ticket : Type 0 where
  pub version : ℕ
  pub download_url : Str
  pub object_key : Str
  pub common : TicketCommon

-- `postcard::to_stdvec` and `postcard::from_bytes` at the three types that the codec reads, and the
-- URL-safe `base64` engine.
pub record Format (Endpoint : Type 0) : Type 0 where
  pub to_stdvec : Ticket Endpoint → Option Bytes
  pub from_ticket : Bytes → Option (Ticket Endpoint)
  pub from_legacy_s3 : Bytes → Option LegacyS3Ticket
  pub from_legacy : Bytes → Option (LegacyTicket Endpoint)
  pub base64_encode : Bytes → Str
  pub base64_decode : Str → Option Bytes

-- Both libraries read back what they wrote.
pub record IsLawful {Endpoint : Type 0} (format : Format Endpoint) : Type 0 where
  pub from_ticket-to_stdvec :
      (ticket : Ticket Endpoint) (bytes : Bytes)
      → format.to_stdvec ticket ≡ some bytes
      → format.from_ticket bytes ≡ some ticket
  pub base64_decode-encode :
      (bytes : Bytes) → format.base64_decode (format.base64_encode bytes) ≡ some bytes

-- The message of `bail!` names the kind of the ticket and its version.
pub data Error : Type 0 where
  serialize prefix_missing bad_base64 parse : Error
  unsupported_peer unsupported_s3 unsupported_web_dav unsupported_relay_only : ℕ → Error
  unsupported_trusted_relay_only unsupported_ftp unsupported_sftp unsupported_tunnel : ℕ → Error
  unsupported : ℕ → Error

module _ {Endpoint : Type 0} where
  -- The arms of `decode` that return the ticket.
  unfoldable pub accepted : Ticket Endpoint → Bool
  accepted (peer t) = t.version == 2
  accepted (s3 t) = t.version == 3
  accepted (web_dav t) = t.version == 4
  accepted (relay_only t) = t.version == 5
  accepted (trusted_relay_only t) = t.version == 6
  accepted (ftp t) = t.version == 7
  accepted (sftp t) = t.version == 8
  accepted (tunnel t) = t.version == 9

  -- The arms below them; the last one, `_ => {}`, is `none`.
  unfoldable pub refused : Ticket Endpoint → Option Error
  refused (peer t) = if not (t.version == 2) then some (unsupported_peer t.version) else none
  refused (s3 t) = if not (t.version == 3) then some (unsupported_s3 t.version) else none
  refused (web_dav t) = if not (t.version == 4) then some (unsupported_web_dav t.version) else none
  refused (relay_only t) =
      if not (t.version == 5) then some (unsupported_relay_only t.version) else none
  refused (trusted_relay_only t) =
      if not (t.version == 6) then some (unsupported_trusted_relay_only t.version) else none
  refused (ftp t) = if not (t.version == 7) then some (unsupported_ftp t.version) else none
  refused (sftp t) = if not (t.version == 8) then some (unsupported_sftp t.version) else none
  refused (tunnel t) = if not (t.version == 9) then some (unsupported_tunnel t.version) else none

  module _ (format : Format Endpoint) where
    unfoldable pub encode : Ticket Endpoint → Result Str Error
    encode ticket = do
      bytes ← ok_or (format.to_stdvec ticket) serialize
      ok (prefix ++ format.base64_encode bytes)

    -- The last part of `decode`: the ticket of version 1 or 2.
    unfoldable pub decode_first : Bytes → Result (Ticket Endpoint) Error
    decode_first bytes = do
      legacy ← ok_or (format.from_legacy bytes) parse
      if not (legacy.version == 1) && not (legacy.version == 2)
          then err (unsupported legacy.version)
          else ok (new_peer legacy.endpoint legacy.name legacy.kind legacy.size legacy.content_md5)

    -- What `decode` does with bytes that are no current ticket.
    unfoldable pub decode_legacy : Bytes → Result (Ticket Endpoint) Error
    decode_legacy bytes = elim (format.from_legacy_s3 bytes) [
      | none ↦ decode_first bytes
      | some legacy_s3 ↦
          if legacy_s3.version == 3
          then ok (
              s3 (record {
                version = 3;
                download_url = legacy_s3.download_url;
                delete_url = none;
                object_key = legacy_s3.object_key;
                common = legacy_s3.common;
              }))
          else decode_first bytes
    ]

    unfoldable pub decode_ticket : Ticket Endpoint → Bytes → Result (Ticket Endpoint) Error
    decode_ticket ticket bytes =
        if accepted ticket
        then ok ticket
        else elim (refused ticket) [ none ↦ decode_legacy bytes | some e ↦ err e ]

    unfoldable pub decode_bytes : Bytes → Result (Ticket Endpoint) Error
    decode_bytes bytes = elim (format.from_ticket bytes) [
      | none ↦ decode_legacy bytes
      | some ticket ↦ decode_ticket ticket bytes
    ]

    unfoldable pub decode : Str → Result (Ticket Endpoint) Error
    decode raw = do
      body ← ok_or (strip_prefix prefix raw) prefix_missing
      bytes ← ok_or (format.base64_decode body) bad_base64
      decode_bytes bytes
