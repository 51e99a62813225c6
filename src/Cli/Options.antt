-- ===== src/Cli/Options.antt =====
-- `validate_send` and `is_valid_web_token` of src/cli/common.rs. A relay URL is of a library; the
-- code asks for its scheme only.
use ii.Prelude.{
  ℕ, ◌+◌, Bool, true, false, not, ◌&&◌, ◌||◌, Option, List, [], ◌∷◌, ◌++◌, any, all, length, leb,
  ltb, ◌==◌, is_some, is_some_and, if◌then◌else◌, Result, ok, err,
}
use ii.Prelude.Text.{Str, codes, str_eq}
use ii.Prelude.Number.{is_digit}

pub data SymlinkPolicy : Type 0 where
  follow preserve reject : SymlinkPolicy

pub data ChecksumAlgorithm : Type 0 where
  md5 sha256 : ChecksumAlgorithm

-- The options of a send. A path and an address are texts.
pub record SendArgs (Url : Type 0) : Type 0 where
  pub path : Option Str
  pub extra_paths : List Str
  pub name : Option Str
  pub include_globs : List Str
  pub exclude_globs : List Str
  pub rate : Option ℕ
  pub checksum : Option ChecksumAlgorithm
  pub preserve_metadata : Bool
  pub symlinks : SymlinkPolicy
  pub quic_port : Option ℕ
  pub json : Bool
  pub keep_alive : Bool
  pub copy : Bool
  pub output : Option Str
  pub s3 : Bool
  pub r2 : Bool
  pub azure : Bool
  pub ftp : Bool
  pub delete_after_recv : Bool
  pub profile : Option Str
  pub webdav : Bool
  pub sftp : Bool
  pub web : Bool
  pub web_port : Option ℕ
  pub web_bind : Option Str
  pub web_token : Option Str
  pub web_upload : Bool
  pub web_upload_dir : Option Str
  pub portable_webdav : Bool
  pub local : Bool
  pub relay : List Url
  pub accept_self_signed_relay : Bool
  pub no_relay : Bool

abbrev pub is_empty {ℓ} : {A : Type ℓ} → List A → Bool
is_empty [] = true
is_empty (x ∷ xs) = false

abbrev pub is_follow : SymlinkPolicy → Bool
is_follow follow = true
is_follow preserve = false
is_follow reject = false

is_token_byte : ℕ → Bool
is_token_byte c =
    is_digit c || (leb b'A' c && leb c b'Z') || (leb b'a' c && leb c b'z') || c == b'-' || c == b'_'

unfoldable pub is_valid_web_token : Str → Bool
unfolding is_token_byte
is_valid_web_token token =
    leb 16 (length token) && leb (length token) 128 && all is_token_byte token

abbrev pub is_bad_token : Str → Bool
is_bad_token token = not (is_valid_web_token token)

abbrev pub count : List Bool → ℕ
count [] = 0
count (true ∷ flags) = 1 + count flags
count (false ∷ flags) = count flags

-- `ParseAction::error` puts its message between a word and the help text, and the exit code is 2.
pub record ParseAction : Type 0 where
  pub text : Str
  pub code : ℕ

unfoldable pub parse_error : Str → Str → ParseAction
parse_error help message = record {
  text = codes "error: " ++ message ++ codes "\n\n" ++ help;
  code = 2;
}

-- The checks one after the other: the first that fails is the error.
unfoldable pub first_error : Str → List (Bool × Str) → Result (Unit {0}) ParseAction
first_error help [] = ok tt
first_error help ((refused, message) ∷ checks) =
    let rest = first_error help checks in if refused then err (parse_error help message) else rest

module _ {Url : Type 0} (scheme : Url → Str) where
  abbrev pub backends : SendArgs Url → List Bool
  backends a =
      a.s3
      ∷ a.r2
      ∷ a.azure
      ∷ a.ftp
      ∷ a.webdav
      ∷ a.sftp
      ∷ a.web
      ∷ a.local
      ∷ not (is_empty a.relay)
      ∷ a.no_relay
      ∷ []

  abbrev pub is_insecure : Url → Bool
  is_insecure url = not (str_eq (scheme url) (codes "https"))

  -- The checks of `validate_send` with their messages, in their order.
  unfoldable pub send_checks : SendArgs Url → List (Bool × Str)
  send_checks a =
      (
        ltb 1 (count (backends a)),
        codes
            "--s3, --r2, --azure, --webdav, --ftp, --sftp, --web, --local, --relay and --no-relay conflict with each other",
      )
      ∷ (
        a.portable_webdav && not a.webdav && not a.ftp && not a.sftp,
        codes "-p requires --webdav, --ftp or --sftp",
      )
      ∷ (a.accept_self_signed_relay && is_empty a.relay, codes "-k requires --relay <url>")
      ∷ (
        a.accept_self_signed_relay && any is_insecure a.relay,
        codes "-k requires an https:// relay URL",
      )
      ∷ (a.web && not (is_some a.path), codes "--web requires a file or folder path")
      ∷ (a.web && not (is_empty a.extra_paths), codes "--web accepts only one file or folder path")
      ∷ (
        a.web && (not (is_empty a.include_globs) || not (is_empty a.exclude_globs)),
        codes "--include and --exclude cannot be used with --web",
      )
      ∷ (a.web && a.preserve_metadata, codes "--preserve-metadata cannot be used with --web")
      ∷ (a.web && not (is_follow a.symlinks), codes "--symlinks cannot be used with --web")
      ∷ (
        a.preserve_metadata && (not (is_some a.path) || not (is_empty a.extra_paths)),
        codes "--preserve-metadata requires exactly one regular file path",
      )
      ∷ (
        is_some a.quic_port && (a.s3 || a.r2 || a.azure || a.webdav || a.ftp || a.sftp || a.web),
        codes "--quic-port requires the P2P send mode",
      )
      ∷ (a.web && (a.copy || is_some a.output), codes "--web cannot be used with -c or -o")
      ∷ (is_some a.web_token && not a.web, codes "--token requires --web")
      ∷ (a.web_upload && not a.web, codes "--upload requires --web")
      ∷ (is_some a.web_upload_dir && not a.web, codes "--path requires --web")
      ∷ (is_some a.web_port && not a.web, codes "--port requires --web")
      ∷ (is_some a.web_bind && not a.web, codes "--bind requires --web")
      ∷ (
        is_some_and a.web_token is_bad_token,
        codes "--token must contain 16 to 128 ASCII letters, digits, '-' or '_'",
      )
      ∷ []

  unfoldable pub validate_send : Str → SendArgs Url → Result (Unit {0}) ParseAction
  validate_send help args = first_error help (send_checks args)
