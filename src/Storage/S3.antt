-- ===== src/Storage/S3.antt =====
-- The S3 profiles of src/storage/profiles.rs.
use ii.Prelude.{
  ◌==◌, ℕ, Bool, true, false, not, ◌&&◌, ◌||◌, Option, none, some, List, [], ◌∷◌, if◌then◌else◌,
  is_some, Result, ok, err, ◌>>=◌,
}
use ii.Prelude.Text.{Str, codes, str_eq, trim}
use ii.Storage.{
  LoadError, moved, bad_input, Lines, Map, Kind, Selection, is_empty, is_blank,
  prompt_optional_line, prompt_field, push_blank, load_profile, get, default_prefix,
  default_presign_ttl_seconds, default_name, Url,
}

abbrev default_s3_provider : Str
default_s3_provider = codes "generic-s3"

abbrev pub cloudflare_r2 : Str
cloudflare_r2 = codes "cloudflare-r2"

pub record S3Profile : Type 0 where
  pub provider : Str
  pub account_id : Option Str
  pub bucket : Str
  pub endpoint : Str
  pub region : Str
  pub access_key_id : Str
  pub secret_access_key : Str
  pub prefix : Str
  pub presign_ttl_seconds : ℕ
  pub path_style : Bool

abbrev pub empty_s3 : S3Profile
empty_s3 = record {
  provider = default_s3_provider;
  account_id = none;
  bucket = [];
  endpoint = [];
  region = codes "us-east-1";
  access_key_id = [];
  secret_access_key = [];
  prefix = default_prefix;
  presign_ttl_seconds = default_presign_ttl_seconds;
  path_style = true;
}

-- The defaults of `load_s3_profile_from_path`, and whether one of them is taken.
abbrev pub with_defaults : S3Profile → S3Profile
with_defaults p = record {
  provider = if is_blank p.provider then default_s3_provider else p.provider;
  account_id = p.account_id;
  bucket = p.bucket;
  endpoint = p.endpoint;
  region = if is_blank p.region then codes "us-east-1" else p.region;
  access_key_id = p.access_key_id;
  secret_access_key = p.secret_access_key;
  prefix = if is_blank p.prefix then default_prefix else p.prefix;
  presign_ttl_seconds =
      if p.presign_ttl_seconds == 0 then default_presign_ttl_seconds else p.presign_ttl_seconds;
  path_style = p.path_style;
}

abbrev pub lacks_defaults : S3Profile → Bool
lacks_defaults p =
    is_blank p.provider || is_blank p.region || is_blank p.prefix || p.presign_ttl_seconds == 0

-- A profile of R2 is refused.
unfoldable pub complete_s3 : Str → S3Profile → Result (S3Profile × Bool) LoadError
complete_s3 name p =
    if str_eq ((with_defaults p).provider) cloudflare_r2
    then err (moved name)
    else ok (with_defaults p, lacks_defaults p)

unfoldable pub missing_s3_fields : S3Profile → List Str
missing_s3_fields p = push_blank (codes "Endpoint") p.endpoint (
    push_blank (codes "Region") p.region (
      push_blank (codes "Bucket") p.bucket (
        push_blank (codes "Access Key ID") p.access_key_id
          (push_blank (codes "Secret Access Key") p.secret_access_key []))))

-- A new profile is asked for its region; another one has a default if its region is blank.
abbrev prompt_region : Bool → Str → Lines → Result (Str × Lines) LoadError
prompt_region true region lines = prompt_optional_line lines >>= λ answer.
    ok (if is_empty (answer.0) then region else answer.0, answer.1)
prompt_region false region lines = ok (if is_blank region then codes "us-east-1" else region, lines)

abbrev parse_style : Str → Result Bool LoadError
parse_style style =
    if is_empty style
      || str_eq style (codes "yes")
      || str_eq style (codes "y")
      || str_eq style (codes "true")
    then ok true
    else if str_eq style (codes "no") || str_eq style (codes "n") || str_eq style (codes "false")
    then ok false
    else err bad_input

abbrev prompt_style : Bool → Bool → Lines → Result (Bool × Lines) LoadError
prompt_style true path_style lines = prompt_optional_line lines >>= λ answer.
    parse_style (answer.0) >>= λ style. ok (style, answer.1)
prompt_style false path_style lines = ok (path_style, lines)

-- The fields that are typed, or kept.
pub record S3Answers : Type 0 where
  pub endpoint : Str
  pub region : Str
  pub bucket : Str
  pub access_key_id : Str
  pub secret_access_key : Str
  pub path_style : Bool

unfoldable pub ask_s3_fields : Bool → S3Profile → Lines → Result (S3Answers × Lines) LoadError
unfolding prompt_field prompt_optional_line
ask_s3_fields is_new p lines = do
  (endpoint, l1) ← prompt_field p.endpoint lines
  (region, l2) ← prompt_region is_new p.region l1
  (bucket, l3) ← prompt_field p.bucket l2
  (access_key_id, l4) ← prompt_field p.access_key_id l3
  (secret_access_key, l5) ← prompt_field p.secret_access_key l4
  (path_style, l6) ← prompt_style is_new p.path_style l5
  ok (
    record {
      endpoint = endpoint;
      region = region;
      bucket = bucket;
      access_key_id = access_key_id;
      secret_access_key = secret_access_key;
      path_style = path_style;
    },
    l6,
  )

abbrev with_answers : S3Profile → S3Answers → S3Profile
with_answers p answers = record {
  provider = p.provider;
  account_id = p.account_id;
  bucket = answers.bucket;
  endpoint = answers.endpoint;
  region = answers.region;
  access_key_id = answers.access_key_id;
  secret_access_key = answers.secret_access_key;
  prefix = p.prefix;
  presign_ttl_seconds = p.presign_ttl_seconds;
  path_style = answers.path_style;
}

unfoldable pub prompt_missing_s3_fields :
    Bool → S3Profile → Lines → Result (S3Profile × Lines) LoadError
unfolding ask_s3_fields
prompt_missing_s3_fields is_new p lines = do
  (answers, rest) ← ask_s3_fields is_new p lines
  ok (with_answers p answers, rest)

abbrev pub is_http : Option Url → Bool
is_http none = false
is_http (some url) = str_eq url.scheme (codes "http") || str_eq url.scheme (codes "https")

-- The name of the first profile that is one of R2.
unfoldable pub find_legacy : Map S3Profile → Option Str
find_legacy [] = none
find_legacy ((name, p) ∷ profiles) =
    let rest = find_legacy profiles in if str_eq p.provider cloudflare_r2 then some name else rest

abbrev pub unless_moved :
    Option Str → Result (Selection S3Profile) LoadError → Result (Selection S3Profile) LoadError
unless_moved none loaded = loaded
unless_moved (some legacy_name) loaded = err (moved legacy_name)

module _ (parse_url : Str → Option Url) where
  unfoldable pub validate_s3_profile : S3Profile → Bool
  validate_s3_profile p =
      not (is_blank p.endpoint)
      && not (is_blank p.bucket)
      && not (is_blank p.access_key_id)
      && not (is_blank p.secret_access_key)
      && is_http (parse_url (trim p.endpoint))

  abbrev pub s3 : Kind S3Profile
  s3 = record {
    empty = empty_s3;
    complete = complete_s3;
    missing = missing_s3_fields;
    prompt = prompt_missing_s3_fields;
    validate = validate_s3_profile;
  }

  unfoldable pub load_s3_profile_from_path :
      Bool → Option Lines → Str → Map S3Profile → Result (Selection S3Profile) LoadError
  unfolding find_legacy load_profile
  load_s3_profile_from_path allow_prompt terminal name profiles =
      unless_moved
        (if is_some (get name profiles) || not (str_eq name default_name)
          then none
          else find_legacy profiles)
        (load_profile s3 allow_prompt terminal name profiles)
