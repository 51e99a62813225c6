-- ===== src/Ticket/Routes.antt =====
-- The accessors of src/ticket/mod.rs: by which route a ticket's payload is fetched.
use ii.Prelude.{
  ℕ, Bool, true, false, ◌≡◌, ◌≢◌, ◌↔◌, ◌+◌, Option, none, some, refl, arith, is_some, if◌then◌else◌,
}
use ii.Prelude.Text.{Str, Bytes}
use ii.Ticket.Model.{
  PayloadKind, TicketCommon, S3Ticket, WebDavTicket, FtpTicket, SftpTicket, TunnelTicket, Ticket,
  peer, s3, web_dav, relay_only, trusted_relay_only, ftp, sftp, tunnel,
}

module _ {Endpoint : Type 0} where
  -- `none` is the panic of `unreachable!`.
  unfoldable pub common : Ticket Endpoint → Option TicketCommon
  common (peer t) = some t.common
  common (s3 t) = some t.common
  common (web_dav t) = some t.common
  common (relay_only t) = some t.common
  common (trusted_relay_only t) = some t.common
  common (ftp t) = some t.common
  common (sftp t) = some t.common
  common (tunnel t) = none

  unfoldable pub endpoint : Ticket Endpoint → Option Endpoint
  endpoint (peer t) = some t.endpoint
  endpoint (relay_only t) = some t.endpoint
  endpoint (trusted_relay_only t) = some t.endpoint
  endpoint (tunnel t) = some t.endpoint
  endpoint (s3 t) = none
  endpoint (web_dav t) = none
  endpoint (ftp t) = none
  endpoint (sftp t) = none

  unfoldable pub s3_route : Ticket Endpoint → Option S3Ticket
  s3_route (s3 t) = some t
  s3_route _ = none

  unfoldable pub webdav_route : Ticket Endpoint → Option WebDavTicket
  webdav_route (web_dav t) = some t
  webdav_route _ = none

  unfoldable pub ftp_route : Ticket Endpoint → Option FtpTicket
  ftp_route (ftp t) = some t
  ftp_route _ = none

  unfoldable pub sftp_route : Ticket Endpoint → Option SftpTicket
  sftp_route (sftp t) = some t
  sftp_route _ = none

  unfoldable pub tunnel_route : Ticket Endpoint → Option (TunnelTicket Endpoint)
  tunnel_route (tunnel t) = some t
  tunnel_route _ = none

  unfoldable pub is_relay_only : Ticket Endpoint → Bool
  is_relay_only (relay_only t) = true
  is_relay_only (trusted_relay_only t) = true
  is_relay_only _ = false

  unfoldable pub is_self_signed_relay_only : Ticket Endpoint → Bool
  is_self_signed_relay_only (relay_only t) = true
  is_self_signed_relay_only _ = false

  unfoldable pub name : Ticket Endpoint → Option Str
  unfolding common
  name t = elim (common t) [ none ↦ none | some c ↦ some c.name ]

  unfoldable pub kind : Ticket Endpoint → Option PayloadKind
  unfolding common
  kind t = elim (common t) [ none ↦ none | some c ↦ some c.kind ]

  -- The outer `none` is the panic.
  unfoldable pub size : Ticket Endpoint → Option (Option ℕ)
  unfolding common
  size t = elim (common t) [ none ↦ none | some c ↦ some c.size ]

  unfoldable pub content_md5 : Ticket Endpoint → Option (Option Bytes)
  unfolding common
  content_md5 t = elim (common t) [ none ↦ none | some c ↦ some c.content_md5 ]

abbrev count : Bool → ℕ
count b = if b then 1 else 0

-- Exactly one of the endpoint and the four stored routes of a ticket is present.
one_route :
    {Endpoint : Type 0} (t : Ticket Endpoint)
    → count (is_some (endpoint t))
        + count (is_some (s3_route t))
        + count (is_some (webdav_route t))
        + count (is_some (ftp_route t))
        + count (is_some (sftp_route t))
      ≡ 1
unfolding endpoint s3_route webdav_route ftp_route sftp_route
one_route (peer t) = refl
one_route _ = refl

-- Reading the file metadata of a ticket (name, kind, size, checksum) panics for a tunnel ticket and
-- for no other.
metadata_panics_iff :
    {Endpoint : Type 0} (t : Ticket Endpoint)
    → ((name t ≡ none) ↔ (tunnel_route t ≢ none))
      × ((kind t ≡ none) ↔ (tunnel_route t ≢ none))
      × ((size t ≡ none) ↔ (tunnel_route t ≢ none))
      × ((content_md5 t ≡ none) ↔ (tunnel_route t ≢ none))
unfolding name kind size content_md5 tunnel_route
metadata_panics_iff (peer t) = ground arith
metadata_panics_iff _ = ground arith
