-- ===== src/Ticket/Model.antt =====
-- src/ticket/model.rs and the constructors of src/ticket/mod.rs.
use ii.Prelude.{ℕ, Bool, Option}
use ii.Prelude.Text.{Str, Bytes}

pub data PayloadKind : Type 0 where
  file dir stdin : PayloadKind

pub record TicketCommon : Type 0 where
  pub name : Str
  pub kind : PayloadKind
  pub size : Option ℕ
  pub content_md5 : Option Bytes

pub record PeerTicket (Endpoint : Type 0) : Type 0 where
  pub version : ℕ
  pub endpoint : Endpoint
  pub common : TicketCommon

pub record RelayOnlyTicket (Endpoint : Type 0) : Type 0 where
  pub version : ℕ
  pub endpoint : Endpoint
  pub common : TicketCommon

pub record S3Ticket : Type 0 where
  pub version : ℕ
  pub download_url : Str
  pub delete_url : Option Str
  pub object_key : Str
  pub common : TicketCommon

pub record WebDavPortableCredentials : Type 0 where
  pub url : Str
  pub username : Str
  pub password : Str
  pub auth : Str

pub record WebDavTicket : Type 0 where
  pub version : ℕ
  pub profile : Str
  pub object_key : Str
  pub delete_after_recv : Bool
  pub portable : Option WebDavPortableCredentials
  pub common : TicketCommon

pub record FtpPortableCredentials : Type 0 where
  pub url : Str
  pub username : Str
  pub password : Str
  pub remote_dir : Str

pub record FtpTicket : Type 0 where
  pub version : ℕ
  pub profile : Str
  pub object_key : Str
  pub delete_after_recv : Bool
  pub portable : Option FtpPortableCredentials
  pub common : TicketCommon

pub data SftpPortableAuth : Type 0 where
  password : Str → SftpPortableAuth
  private_key : Str → Option Str → SftpPortableAuth

pub record SftpPortableCredentials : Type 0 where
  pub host : Str
  pub port : ℕ
  pub username : Str
  pub remote_dir : Str
  pub auth : SftpPortableAuth

pub record SftpTicket : Type 0 where
  pub version : ℕ
  pub profile : Str
  pub object_key : Str
  pub delete_after_recv : Bool
  pub portable : Option SftpPortableCredentials
  pub common : TicketCommon

pub data TunnelRelayMode : Type 0 where
  default self_signed_relay_only trusted_relay_only : TunnelRelayMode

pub record TunnelTicket (Endpoint : Type 0) : Type 0 where
  pub version : ℕ
  pub endpoint : Endpoint
  pub access_key : Bytes
  pub relay_mode : TunnelRelayMode

pub data Ticket (Endpoint : Type 0) : Type 0 where
  peer : PeerTicket Endpoint → Ticket Endpoint
  s3 : S3Ticket → Ticket Endpoint
  web_dav : WebDavTicket → Ticket Endpoint
  relay_only : RelayOnlyTicket Endpoint → Ticket Endpoint
  trusted_relay_only : RelayOnlyTicket Endpoint → Ticket Endpoint
  ftp : FtpTicket → Ticket Endpoint
  sftp : SftpTicket → Ticket Endpoint
  tunnel : TunnelTicket Endpoint → Ticket Endpoint

abbrev common_of : Str → PayloadKind → Option ℕ → Option Bytes → TicketCommon
common_of name kind size md5 = record { name = name; kind = kind; size = size; content_md5 = md5 }

-- The associated functions `Ticket::peer` to `Ticket::tunnel`, which write the version.
module _ {Endpoint : Type 0} where
  unfoldable pub new_peer : Endpoint → Str → PayloadKind → Option ℕ → Option Bytes → Ticket Endpoint
  new_peer endpoint name kind size md5 =
      peer (record { version = 2; endpoint = endpoint; common = common_of name kind size md5 })

  unfoldable pub new_relay_only :
      Endpoint → Str → PayloadKind → Option ℕ → Option Bytes → Ticket Endpoint
  new_relay_only endpoint name kind size md5 =
      relay_only
        (record { version = 5; endpoint = endpoint; common = common_of name kind size md5 })

  unfoldable pub new_trusted_relay_only :
      Endpoint → Str → PayloadKind → Option ℕ → Option Bytes → Ticket Endpoint
  new_trusted_relay_only endpoint name kind size md5 =
      trusted_relay_only
        (record { version = 6; endpoint = endpoint; common = common_of name kind size md5 })

  unfoldable pub new_tunnel : Endpoint → Bytes → TunnelRelayMode → Ticket Endpoint
  new_tunnel endpoint access_key relay_mode = tunnel (record {
    version = 9;
    endpoint = endpoint;
    access_key = access_key;
    relay_mode = relay_mode;
  })

module _ (Endpoint : Type 0) where
  unfoldable pub new_s3 :
      Str → Option Str → Str → Str → PayloadKind → Option ℕ → Option Bytes → Ticket Endpoint
  new_s3 download_url delete_url object_key name kind size md5 = s3 (record {
    version = 3;
    download_url = download_url;
    delete_url = delete_url;
    object_key = object_key;
    common = common_of name kind size md5;
  })

  unfoldable pub new_web_dav :
      Str
      → Str
      → Bool
      → Option WebDavPortableCredentials
      → Str
      → PayloadKind
      → Option ℕ
      → Option Bytes
      → Ticket Endpoint
  new_web_dav profile object_key delete_after_recv portable name kind size md5 = web_dav (record {
    version = 4;
    profile = profile;
    object_key = object_key;
    delete_after_recv = delete_after_recv;
    portable = portable;
    common = common_of name kind size md5;
  })

  unfoldable pub new_ftp :
      Str
      → Str
      → Bool
      → Option FtpPortableCredentials
      → Str
      → PayloadKind
      → Option ℕ
      → Option Bytes
      → Ticket Endpoint
  new_ftp profile object_key delete_after_recv portable name kind size md5 = ftp (record {
    version = 7;
    profile = profile;
    object_key = object_key;
    delete_after_recv = delete_after_recv;
    portable = portable;
    common = common_of name kind size md5;
  })

  unfoldable pub new_sftp :
      Str
      → Str
      → Bool
      → Option SftpPortableCredentials
      → Str
      → PayloadKind
      → Option ℕ
      → Option Bytes
      → Ticket Endpoint
  new_sftp profile object_key delete_after_recv portable name kind size md5 = sftp (record {
    version = 8;
    profile = profile;
    object_key = object_key;
    delete_after_recv = delete_after_recv;
    portable = portable;
    common = common_of name kind size md5;
  })
