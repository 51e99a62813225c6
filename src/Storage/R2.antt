-- ===== src/Storage/R2.antt =====
-- The R2 profiles of src/storage/profiles.rs, and the S3 profile that one stands for.
use ii.Prelude.{
  if◌then◌else◌, ℕ, ◌==◌, Bool, true, not, ◌&&◌, ◌||◌, Option, some, List, [], ◌++◌, Result, ok,
  ◌>>=◌,
}
use ii.Prelude.Text.{Str, codes, trim, trim_end}
use ii.Storage.{
  LoadError, Lines, Map, Kind, Selection, is_blank, prompt_field, push_blank, load_profile,
  default_prefix, default_presign_ttl_seconds,
}
use ii.Storage.S3.{S3Profile, cloudflare_r2}

pub record R2Profile : Type 0 where
  pub account_id : Str
  pub bucket : Str
  pub access_key_id : Str
  pub secret_access_key : Str
  pub prefix : Str
  pub presign_ttl_seconds : ℕ

abbrev pub empty_r2 : R2Profile
empty_r2 = record {
  account_id = [];
  bucket = [];
  access_key_id = [];
  secret_access_key = [];
  prefix = default_prefix;
  presign_ttl_seconds = default_presign_ttl_seconds;
}

abbrev pub with_r2_defaults : R2Profile → R2Profile
with_r2_defaults p = record {
  account_id = p.account_id;
  bucket = p.bucket;
  access_key_id = p.access_key_id;
  secret_access_key = p.secret_access_key;
  prefix = if is_blank p.prefix then default_prefix else p.prefix;
  presign_ttl_seconds =
      if p.presign_ttl_seconds == 0 then default_presign_ttl_seconds else p.presign_ttl_seconds;
}

abbrev pub lacks_r2_defaults : R2Profile → Bool
lacks_r2_defaults p = is_blank p.prefix || p.presign_ttl_seconds == 0

abbrev pub complete_r2 : Str → R2Profile → Result (R2Profile × Bool) LoadError
complete_r2 name p = ok (with_r2_defaults p, lacks_r2_defaults p)

unfoldable pub missing_r2_fields : R2Profile → List Str
missing_r2_fields p = push_blank (codes "Account ID") p.account_id (
    push_blank (codes "Bucket") p.bucket (
      push_blank (codes "Access Key ID") p.access_key_id
        (push_blank (codes "Secret Access Key") p.secret_access_key [])))

unfoldable pub prompt_missing_r2_fields :
    Bool → R2Profile → Lines → Result (R2Profile × Lines) LoadError
unfolding prompt_field
prompt_missing_r2_fields is_new p lines = do
  (account_id, l1) ← prompt_field p.account_id lines
  (bucket, l2) ← prompt_field p.bucket l1
  (access_key_id, l3) ← prompt_field p.access_key_id l2
  (secret_access_key, l4) ← prompt_field p.secret_access_key l3
  ok (
    record {
      account_id = account_id;
      bucket = bucket;
      access_key_id = access_key_id;
      secret_access_key = secret_access_key;
      prefix = p.prefix;
      presign_ttl_seconds = p.presign_ttl_seconds;
    },
    l4,
  )

unfoldable pub validate_r2_profile : R2Profile → Bool
validate_r2_profile p =
    not (is_blank p.account_id)
    && not (is_blank p.bucket)
    && not (is_blank p.access_key_id)
    && not (is_blank p.secret_access_key)

abbrev pub r2 : Kind R2Profile
r2 = record {
  empty = empty_r2;
  complete = complete_r2;
  missing = missing_r2_fields;
  prompt = prompt_missing_r2_fields;
  validate = validate_r2_profile;
}

unfoldable pub load_r2_profile_from_path :
    Bool → Option Lines → Str → Map R2Profile → Result (Selection R2Profile) LoadError
unfolding load_profile
load_r2_profile_from_path allow_prompt terminal name profiles =
    load_profile r2 allow_prompt terminal name profiles

unfoldable pub cloudflare_r2_endpoint : Str → Str
cloudflare_r2_endpoint account_id =
    codes "https://"
    ++ trim_end (λ c. c == b'.') (trim account_id)
    ++ codes ".r2.cloudflarestorage.com"

unfoldable pub r2_as_s3_profile : R2Profile → S3Profile
unfolding cloudflare_r2_endpoint
r2_as_s3_profile p = record {
  provider = cloudflare_r2;
  account_id = some p.account_id;
  bucket = p.bucket;
  endpoint = cloudflare_r2_endpoint p.account_id;
  region = codes "auto";
  access_key_id = p.access_key_id;
  secret_access_key = p.secret_access_key;
  prefix = p.prefix;
  presign_ttl_seconds = p.presign_ttl_seconds;
  path_style = true;
}
