-- ===== src/Storage/WebDav.antt =====
-- The WebDAV and FTP profiles of src/storage/profiles.rs.
use ii.Prelude.{
  Bool, not, ◌&&◌, Option, none, some, List, [], if◌then◌else◌, is_some, Result, ok, ◌>>=◌, false,
}
use ii.Prelude.Text.{Str, codes, str_eq, trim}
use ii.Storage.{
  LoadError, Lines, Map, Kind, Selection, is_blank, prompt_field, push_blank, load_profile,
  default_prefix, Url,
}
use ii.Storage.S3.{is_http}

pub data WebDavAuth : Type 0 where
  basic : WebDavAuth
  digest : WebDavAuth

pub record WebDavProfile : Type 0 where
  pub url : Str
  pub username : Str
  pub password : Str
  pub remote_dir : Str
  pub auth : WebDavAuth

pub record FtpProfile : Type 0 where
  pub url : Str
  pub username : Str
  pub password : Str
  pub remote_dir : Str

abbrev pub empty_webdav : WebDavProfile
empty_webdav = record {
  url = [];
  username = [];
  password = [];
  remote_dir = default_prefix;
  auth = basic;
}

abbrev pub empty_ftp : FtpProfile
empty_ftp = record { url = []; username = []; password = []; remote_dir = default_prefix }

abbrev pub complete_webdav : Str → WebDavProfile → Result (WebDavProfile × Bool) LoadError
complete_webdav name p = ok (
  record {
    url = p.url;
    username = p.username;
    password = p.password;
    remote_dir = if is_blank p.remote_dir then default_prefix else p.remote_dir;
    auth = p.auth;
  },
  is_blank p.remote_dir,
)

abbrev pub complete_ftp : Str → FtpProfile → Result (FtpProfile × Bool) LoadError
complete_ftp name p = ok (
  record {
    url = p.url;
    username = p.username;
    password = p.password;
    remote_dir = if is_blank p.remote_dir then default_prefix else p.remote_dir;
  },
  is_blank p.remote_dir,
)

-- `missing_webdav_fields` and `missing_ftp_fields` of a URL, a user name and a password.
abbrev missing_login : Str → Str → Str → List Str
missing_login url username password =
    push_blank (codes "URL") url
      (push_blank (codes "Username") username (push_blank (codes "Password") password []))

abbrev missing_webdav_fields : WebDavProfile → List Str
missing_webdav_fields p = missing_login p.url p.username p.password

abbrev missing_ftp_fields : FtpProfile → List Str
missing_ftp_fields p = missing_login p.url p.username p.password

unfoldable pub prompt_missing_webdav_fields :
    Bool → WebDavProfile → Lines → Result (WebDavProfile × Lines) LoadError
unfolding prompt_field
prompt_missing_webdav_fields is_new p lines = do
  (url, l1) ← prompt_field p.url lines
  (username, l2) ← prompt_field p.username l1
  (password, l3) ← prompt_field p.password l2
  ok (
    record {
      url = url;
      username = username;
      password = password;
      remote_dir = p.remote_dir;
      auth = p.auth;
    },
    l3,
  )

unfoldable pub prompt_missing_ftp_fields :
    Bool → FtpProfile → Lines → Result (FtpProfile × Lines) LoadError
unfolding prompt_field
prompt_missing_ftp_fields is_new p lines = do
  (url, l1) ← prompt_field p.url lines
  (username, l2) ← prompt_field p.username l1
  (password, l3) ← prompt_field p.password l2
  ok (record { url = url; username = username; password = password; remote_dir = p.remote_dir }, l3)

abbrev is_ftp : Option Url → Bool
is_ftp none = false
is_ftp (some url) = str_eq url.scheme (codes "ftp") && is_some url.host_str

module _ (parse_url : Str → Option Url) where
  unfoldable pub validate_webdav_profile : WebDavProfile → Bool
  validate_webdav_profile p =
      not (is_blank p.url)
      && not (is_blank p.username)
      && not (is_blank p.password)
      && is_http (parse_url (trim p.url))

  unfoldable pub validate_ftp_profile : FtpProfile → Bool
  validate_ftp_profile p =
      not (is_blank p.url)
      && not (is_blank p.username)
      && not (is_blank p.password)
      && is_ftp (parse_url (trim p.url))

  abbrev pub webdav : Kind WebDavProfile
  webdav = record {
    empty = empty_webdav;
    complete = complete_webdav;
    missing = missing_webdav_fields;
    prompt = prompt_missing_webdav_fields;
    validate = validate_webdav_profile;
  }

  abbrev pub ftp : Kind FtpProfile
  ftp = record {
    empty = empty_ftp;
    complete = complete_ftp;
    missing = missing_ftp_fields;
    prompt = prompt_missing_ftp_fields;
    validate = validate_ftp_profile;
  }

  unfoldable pub load_webdav_profile_from_path :
      Bool → Option Lines → Str → Map WebDavProfile → Result (Selection WebDavProfile) LoadError
  unfolding load_profile
  load_webdav_profile_from_path allow_prompt terminal name profiles =
      load_profile webdav allow_prompt terminal name profiles

  unfoldable pub load_ftp_profile_from_path :
      Bool → Option Lines → Str → Map FtpProfile → Result (Selection FtpProfile) LoadError
  unfolding load_profile
  load_ftp_profile_from_path allow_prompt terminal name profiles =
      load_profile ftp allow_prompt terminal name profiles
