-- ===== src/Cli/Tests.antt =====
-- Runs of `validate_send` of src/cli/common.rs, and an instance of the theorem.
use ii.Prelude.{◌≡◌, ◌↔◌, refl, true, false, none, some, [], ◌∷◌, ok, err}
use ii.Prelude.Text.{Str, codes}
use ii.Cli.Options.{
  SendArgs, follow, is_valid_web_token, parse_error, first_error, send_checks, validate_send,
}
use ii.Cli.Values.{find_unit, scaled, parse_rate, parse_duration}
use ii.Prelude.Number.{parse_uint}
use ii.Cli.Valid.{IsValid, validate_send_iff}

checker : Unit {0}
unfolding is_valid_web_token parse_error first_error send_checks validate_send
checker = tt

-- A relay URL is its scheme.
abbrev scheme : Str → Str
scheme url = url

abbrev one_file : SendArgs Str
one_file = record {
  path = some (codes "a.txt");
  extra_paths = [];
  name = none;
  rate = none;
  checksum = none;
  json = false;
  keep_alive = false;
  delete_after_recv = false;
  profile = none;
  include_globs = [];
  exclude_globs = [];
  preserve_metadata = false;
  symlinks = follow;
  quic_port = none;
  copy = false;
  output = none;
  s3 = false;
  r2 = false;
  azure = false;
  ftp = false;
  webdav = false;
  sftp = false;
  web = false;
  local = false;
  no_relay = false;
  web_port = none;
  web_bind = none;
  web_token = none;
  web_upload = false;
  web_upload_dir = none;
  portable_webdav = false;
  relay = [];
  accept_self_signed_relay = false;
}

abbrev by_relay : SendArgs Str
by_relay = record one_file { relay = codes "https" ∷ []; accept_self_signed_relay = true }

relays_are_accepted : validate_send scheme [] by_relay ≡ ok tt
unfolding checker
relays_are_accepted = refl

plain_relays_are_refused :
    validate_send scheme []
      (record one_file { relay = codes "http" ∷ []; accept_self_signed_relay = true })
    ≡ err (parse_error [] (codes "-k requires an https:// relay URL"))
unfolding checker
plain_relays_are_refused = refl

validate_send_iff_example : (validate_send scheme [] by_relay ≡ ok tt) ↔ IsValid scheme by_relay
validate_send_iff_example = validate_send_iff scheme [] by_relay

values : Unit {0}
unfolding find_unit scaled parse_rate parse_duration parse_uint
values = tt

two_mebibytes : parse_rate [] (codes "--rate") (codes "2MiB") ≡ ok 2_097_152
unfolding values
two_mebibytes = refl

half_a_second : parse_duration [] (codes "--every") (codes "500ms") ≡ ok 500
unfolding values
half_a_second = refl
