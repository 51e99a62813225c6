-- ===== src/Storage/Tests.antt =====
-- Runs of src/storage/profiles.rs, and instances of the theorems.
use ii.Prelude.{if◌then◌else◌, ◌++◌, ◌≡◌, refl, true, false, Option, none, some, [], ◌∷◌, ok, err}
use ii.Prelude.Text.{Str, codes}
use ii.Storage.{
  Map, Selection, Lines, Url, moved, missing_fields, load_profile, prompt_line,
  prompt_optional_line, prompt_field, default_name,
}
use ii.Storage.S3.{
  S3Profile, complete_s3, missing_s3_fields, ask_s3_fields, prompt_missing_s3_fields,
  validate_s3_profile, find_legacy, load_s3_profile_from_path, empty_s3,
}
use ii.Storage.R2.{cloudflare_r2_endpoint}
use ii.Storage.Keys.{
  safe_key_component, normalized_object_key, remote_path_parts, content_addressed_object_key,
  hex_lower, is_dots,
}
use ii.Storage.Keys.Parts.{parts_of, key_name, remote_path_parts-normalized_object_key}
use ii.Storage.WebDav.{
  FtpProfile, load_ftp_profile_from_path, prompt_missing_ftp_fields, validate_ftp_profile,
}
use ii.Storage.Stored.{IsStored, load_s3_profile-IsStored}
use ii.Storage.Usable.{IsUsable, load_s3_profile-IsUsable}

-- Every URL of the runs is one of https.
abbrev https : Str → Option Url
https s = some (record { scheme = codes "https"; host_str = some s })

abbrev photos : S3Profile
photos = record {
  provider = codes "generic-s3";
  account_id = none;
  bucket = codes "photos";
  endpoint = codes "https://s3.example.org";
  region = codes "eu-1";
  access_key_id = codes "id";
  secret_access_key = codes "secret";
  prefix = codes "p/";
  presign_ttl_seconds = 60;
  path_style = false;
}

abbrev of_r2 : S3Profile
of_r2 = record {
  provider = codes "cloudflare-r2";
  account_id = none;
  bucket = photos.bucket;
  endpoint = photos.endpoint;
  region = photos.region;
  access_key_id = photos.access_key_id;
  secret_access_key = photos.secret_access_key;
  prefix = photos.prefix;
  presign_ttl_seconds = 60;
  path_style = false;
}

abbrev stored : Map S3Profile
stored = (codes "photos", photos) ∷ []

abbrev loaded : Selection S3Profile
loaded = record { profiles = stored; profile = photos; save_after_success = false }

loads : load_s3_profile_from_path https false none (codes "photos") stored ≡ ok loaded
unfolding load_s3_profile_from_path load_profile complete_s3 missing_s3_fields validate_s3_profile
    find_legacy
loads = refl

missing_noninteractive :
    load_s3_profile_from_path https false none default_name []
    ≡ err (
        missing_fields (
          codes "Endpoint"
          ∷ codes "Bucket"
          ∷ codes "Access Key ID"
          ∷ codes "Secret Access Key"
          ∷ []))
unfolding load_s3_profile_from_path load_profile complete_s3 missing_s3_fields validate_s3_profile
    find_legacy
missing_noninteractive = refl

abbrev typed : Lines
typed =
    some (codes "https://s3.example.org\n")
    ∷ some (codes "eu-1\n")
    ∷ some (codes " photos\n")
    ∷ some (codes "id\n")
    ∷ some (codes "secret\n")
    ∷ some (codes "no\n")
    ∷ []

prompts :
    prompt_missing_s3_fields true empty_s3 typed
    ≡ ok (
      record {
        provider = codes "generic-s3";
        account_id = none;
        bucket = codes "photos";
        endpoint = codes "https://s3.example.org";
        region = codes "eu-1";
        access_key_id = codes "id";
        secret_access_key = codes "secret";
        prefix = codes "ii/";
        presign_ttl_seconds = 86400;
        path_style = false;
      },
      [],
    )
unfolding prompt_missing_s3_fields ask_s3_fields prompt_field prompt_line prompt_optional_line
prompts = refl

legacy_default :
    load_s3_profile_from_path https true none default_name ((codes "old", of_r2) ∷ [])
    ≡ err (moved (codes "old"))
unfolding load_s3_profile_from_path load_profile find_legacy
legacy_default = refl

legacy_named :
    load_s3_profile_from_path https true none (codes "old") ((codes "old", of_r2) ∷ [])
    ≡ err (moved (codes "old"))
unfolding load_s3_profile_from_path load_profile find_legacy complete_s3
legacy_named = refl

endpoint_of_r2 :
    cloudflare_r2_endpoint (codes " abc. ") ≡ codes "https://abc.r2.cloudflarestorage.com"
unfolding cloudflare_r2_endpoint
endpoint_of_r2 = refl

load_s3_profile-IsStored_example : IsStored (codes "photos") stored loaded
load_s3_profile-IsStored_example =
    load_s3_profile-IsStored https false none (codes "photos") stored loaded loads

load_s3_profile-IsUsable_example : IsUsable https photos
load_s3_profile-IsUsable_example =
    load_s3_profile-IsUsable https false none (codes "photos") stored loaded loads

safe_key :
    normalized_object_key (codes "ii/") (codes "abc") (codes "a/b:c.txt") ≡ codes "ii/abc-a_b_c.txt"
unfolding normalized_object_key safe_key_component
safe_key = refl

content_key : content_addressed_object_key (codes "/ii/") (212 ∷ 29 ∷ []) ≡ codes "ii/d41d"
unfolding content_addressed_object_key hex_lower
content_key = refl

no_parts : remote_path_parts (codes "//") ≡ none
unfolding remote_path_parts
no_parts = refl

remote_path_parts-normalized_object_key_example :
    remote_path_parts (normalized_object_key (codes "/ii/") (codes "abc") (codes "../x")) ≡ (
      if is_dots (parts_of (codes "/ii/"))
      then none
      else some (parts_of (codes "/ii/") ++ key_name (codes "abc") (codes "../x") ∷ []))
remote_path_parts-normalized_object_key_example =
    remote_path_parts-normalized_object_key (codes "/ii/") (codes "abc") (codes "../x") refl

abbrev share : FtpProfile
share = record {
  url = codes "ftp://h";
  username = codes "u";
  password = codes "p";
  remote_dir = codes "ii/";
}

abbrev ftp_url : Str → Option Url
ftp_url s = some (record { scheme = codes "ftp"; host_str = some (codes "h") })

typed_ftp :
    load_ftp_profile_from_path ftp_url true
      (some (some (codes "ftp://h\n") ∷ some (codes "u\n") ∷ some (codes "p\n") ∷ []))
      default_name
      []
    ≡ ok (record {
      profiles = (default_name, share) ∷ [];
      profile = share;
      save_after_success = true;
    })
unfolding load_ftp_profile_from_path load_profile prompt_missing_ftp_fields prompt_field prompt_line
    validate_ftp_profile
typed_ftp = refl
