-- ===== src/Ticket/RoundTrip.antt =====
-- What `encode` and `decode` of src/ticket/codec.rs do together.
use ii.Prelude.{
  true, false, ◌≡◌, ◌++◌, refl, subst, ◌∙◌, none, some, arith, ok, err, if◌then◌else◌, Option-cases,
  Bool-cases, ◌⊎◌, inl, inr,
}
use ii.Prelude.Text.{Str, Bytes, strip_prefix, strip_prefix_sound}
use ii.Ticket.Routes.{endpoint, name, kind, size, content_md5}
use ii.Ticket.Model.{
  S3Ticket, Ticket, peer, s3, web_dav, relay_only, trusted_relay_only, ftp, sftp, tunnel, new_peer,
}
use ii.Ticket.Codec.{
  prefix, Format, IsLawful, Error, LegacyTicket, LegacyS3Ticket, accepted, refused, encode, decode,
  decode_first, decode_legacy, decode_ticket, decode_bytes,
}

module _ {Endpoint : Type 0} where
  -- The version of a ticket is the one that its kind is written with.
  abbrev pub IsCurrent : Ticket Endpoint → Type 0
  IsCurrent (peer t) = t.version ≡ 2
  IsCurrent (s3 t) = t.version ≡ 3
  IsCurrent (web_dav t) = t.version ≡ 4
  IsCurrent (relay_only t) = t.version ≡ 5
  IsCurrent (trusted_relay_only t) = t.version ≡ 6
  IsCurrent (ftp t) = t.version ≡ 7
  IsCurrent (sftp t) = t.version ≡ 8
  IsCurrent (tunnel t) = t.version ≡ 9

  accepted_iff :
      (t : Ticket Endpoint) → (accepted t ≡ true → IsCurrent t) × (IsCurrent t → accepted t ≡ true)
  unfolding accepted
  accepted_iff (peer t) = ground arith
  accepted_iff _ = ground arith

  -- The refusal that names the kind and the version of a ticket.
  abbrev pub unsupported_of : Ticket Endpoint → Error
  unsupported_of (peer t) = Error.unsupported_peer t.version
  unsupported_of (s3 t) = Error.unsupported_s3 t.version
  unsupported_of (web_dav t) = Error.unsupported_web_dav t.version
  unsupported_of (relay_only t) = Error.unsupported_relay_only t.version
  unsupported_of (trusted_relay_only t) = Error.unsupported_trusted_relay_only t.version
  unsupported_of (ftp t) = Error.unsupported_ftp t.version
  unsupported_of (sftp t) = Error.unsupported_sftp t.version
  unsupported_of (tunnel t) = Error.unsupported_tunnel t.version

  -- The arm `_ => {}` of `decode` is never taken.
  refused_total : (t : Ticket Endpoint) → accepted t ≡ false → refused t ≡ some (unsupported_of t)
  unfolding accepted refused
  refused_total (peer t) h = ground arith
  refused_total _ h = ground arith

  module _ (format : Format Endpoint) where
    decode_ticket_lem :
        (t : Ticket Endpoint) (bytes : Bytes)
        → decode_ticket format t bytes ≡ (if accepted t then ok t else err (unsupported_of t))
    unfolding decode_ticket
    decode_ticket_lem t bytes = elim (Bool-cases (accepted t)) [
      | inl e ↦ rw e refl
      | inr e ↦ rw (e, refused_total t e) refl
    ]

    encode-eq-ok :
        (t : Ticket Endpoint) {raw : Str}
        → encode format t ≡ ok raw
        → (bytes : Bytes) × (format.to_stdvec t ≡ some bytes)
          × (raw ≡ prefix ++ format.base64_encode bytes)
    unfolding encode
    encode-eq-ok t h = ground arith

    decode_written :
        (t : Ticket Endpoint) (bytes : Bytes)
        → format.base64_decode (format.base64_encode bytes) ≡ some bytes
        → format.from_ticket bytes ≡ some t
        → decode format (prefix ++ format.base64_encode bytes) ≡ decode_ticket format t bytes
    unfolding decode decode_bytes
    decode_written t bytes e f = ground arith

    -- `decode` of the text that `encode` writes comes down to the test of the version.
    decode-encode_lem :
        IsLawful format
        → (t : Ticket Endpoint) {raw : Str} → encode format t ≡ ok raw
        → decode format raw ≡ (if accepted t then ok t else err (unsupported_of t))
    decode-encode_lem lawful t {raw} h =
        let (bytes, e, f) = encode-eq-ok t h in
        rw f (
          decode_written t bytes (lawful.base64_decode-encode bytes)
            (lawful.from_ticket-to_stdvec t bytes e)
          ∙ decode_ticket_lem t bytes)

    decode_first-IsCurrent :
        (bytes : Bytes) (t : Ticket Endpoint) → decode_first format bytes ≡ ok t → IsCurrent t
    unfolding decode_first new_peer
    decode_first-IsCurrent bytes (peer t) h = ground arith
    decode_first-IsCurrent bytes _ h = ground arith

    decode_legacy-IsCurrent :
        (bytes : Bytes) (t : Ticket Endpoint) → decode_legacy format bytes ≡ ok t → IsCurrent t
    unfolding decode_legacy
    decode_legacy-IsCurrent bytes (peer t) h = ground (arith, decode_first-IsCurrent bytes (peer t))
    decode_legacy-IsCurrent bytes t h = ground (arith, decode_first-IsCurrent bytes t)

    decode_ticket-eq-ok :
        (t : Ticket Endpoint) (bytes : Bytes) {u : Ticket Endpoint}
        → decode_ticket format t bytes ≡ ok u
        → (accepted t ≡ true) × (t ≡ u)
    decode_ticket-eq-ok t bytes h = ground (arith, decode_ticket_lem t bytes)

    decode_bytes-IsCurrent :
        (bytes : Bytes) (t : Ticket Endpoint) → decode_bytes format bytes ≡ ok t → IsCurrent t
    unfolding decode_bytes
    decode_bytes-IsCurrent bytes t h = elim (Option-cases (format.from_ticket bytes)) [
      | inl e ↦ decode_legacy-IsCurrent bytes t (rw (e, decode_bytes) at h)
      | inr (u, e) ↦
          let (a, f) = decode_ticket-eq-ok u bytes (rw (e, decode_bytes) at h) in
          subst IsCurrent f ((accepted_iff u).0 a)
    ]

    decode-eq-ok :
        (raw : Str) {t : Ticket Endpoint}
        → decode format raw ≡ ok t
        → (body bytes : Str) × (strip_prefix prefix raw ≡ some body)
          × (format.base64_decode body ≡ some bytes)
          × (decode_bytes format bytes ≡ ok t)
    unfolding decode
    decode-eq-ok raw h = ground arith

    -- What `decode` returns starts with the prefix of tickets, and the version of the ticket is the
    -- one that belongs to its kind, whatever the libraries return.
    pub decode-IsCurrent :
        (raw : Str) (t : Ticket Endpoint)
        → decode format raw ≡ ok t
        → IsCurrent t × ((body : Str) × (raw ≡ prefix ++ body))
    decode-IsCurrent raw t h =
        let (body, bytes, e, f, g) = decode-eq-ok raw h in
        (decode_bytes-IsCurrent bytes t g, (body, strip_prefix_sound prefix raw body e))

    -- A ticket of the current version is read back from its text, if the serializer and the base64
    -- engine read back what they write.
    pub decode-encode :
        IsLawful format
        → (t : Ticket Endpoint) {raw : Str} → IsCurrent t
        → encode format t ≡ ok raw
        → decode format raw ≡ ok t
    decode-encode lawful t {raw} current h =
        let a = (accepted_iff t).1 current in decode-encode_lem lawful t h ∙ rw a refl

    -- Under the same assumption, the text of a ticket with any other version is refused with the
    -- message that names the ticket's kind and its version; no legacy reading of it is tried.
    pub decode-encode_stale :
        IsLawful format
        → (t : Ticket Endpoint) {raw : Str} → ¬ IsCurrent t
        → encode format t ≡ ok raw
        → decode format raw ≡ err (unsupported_of t)
    decode-encode_stale lawful t {raw} stale h = elim (Bool-cases (accepted t)) [
      | inl a ↦ absurd (stale ((accepted_iff t).0 a))
      | inr a ↦ decode-encode_lem lawful t h ∙ rw a refl
    ]

    -- Bytes that are neither a current ticket nor an old S3 ticket, and that are a first ticket of
    -- version 1 or 2, become the peer ticket of version 2 with the same endpoint and metadata.
    pub decode_upgrade :
        (body : Str) (bytes : Bytes) (legacy : LegacyTicket Endpoint)
        → format.base64_decode body ≡ some bytes
        → format.from_ticket bytes ≡ none
        → format.from_legacy_s3 bytes ≡ none
        → format.from_legacy bytes ≡ some legacy
        → (legacy.version ≡ 1) ⊎ (legacy.version ≡ 2)
        → (t : Ticket Endpoint) × (decode format (prefix ++ body) ≡ ok t)
          × IsCurrent t
          × (endpoint t ≡ some legacy.endpoint)
          × (name t ≡ some legacy.name)
          × (kind t ≡ some legacy.kind)
          × (size t ≡ some legacy.size)
          × (content_md5 t ≡ some legacy.content_md5)
    unfolding decode decode_bytes decode_legacy decode_first new_peer endpoint name kind size
        content_md5
    decode_upgrade body bytes l e f g h v = (
      new_peer l.endpoint l.name l.kind l.size l.content_md5,
      ground arith,
      refl,
      refl,
      refl,
      refl,
      refl,
      refl,
    )

    -- Bytes that are no current ticket and that are an S3 ticket of version 3 without an address for
    -- deletion become the current S3 ticket with no such address and everything else kept, even if
    -- they can be read as a first ticket too.
    pub decode_upgrade_s3 :
        (body : Str) (bytes : Bytes) (legacy : LegacyS3Ticket)
        → format.base64_decode body ≡ some bytes
        → format.from_ticket bytes ≡ none
        → format.from_legacy_s3 bytes ≡ some legacy
        → legacy.version ≡ 3
        → (t : S3Ticket) × (decode format (prefix ++ body) ≡ ok (s3 t))
          × (t.version ≡ 3)
          × (t.delete_url ≡ none)
          × (t.download_url ≡ legacy.download_url)
          × (t.object_key ≡ legacy.object_key)
          × (t.common ≡ legacy.common)
    unfolding decode decode_bytes decode_legacy
    decode_upgrade_s3 body bytes l e f g v = (
      record {
        version = 3;
        download_url = l.download_url;
        delete_url = none;
        object_key = l.object_key;
        common = l.common;
      },
      ground arith,
      refl,
      refl,
      refl,
      refl,
      refl,
    )
