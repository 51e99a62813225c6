-- ===== src/Storage/Kinds.antt =====
-- What loading an R2, WebDAV or FTP profile in src/storage/profiles.rs does to the configuration.
use ii.Prelude.{◌≡◌, Bool, false, Option, ok, ap, sym, refl, ◌∙◌}
use ii.Prelude.Text.{Str}
use ii.Storage.{Lines, Map, Selection, Url, is_blank}
use ii.Storage.R2.{R2Profile, r2, with_r2_defaults, complete_r2, load_r2_profile_from_path}
use ii.Storage.WebDav.{
  WebDavProfile, FtpProfile, webdav, ftp, complete_webdav, complete_ftp,
  load_webdav_profile_from_path, load_ftp_profile_from_path,
}
use ii.Storage.Stored.{IsStored, ok_injective, neither, load_profile-IsStored}

complete_r2-unchanged : (name : Str) (p q : R2Profile) → complete_r2 name p ≡ ok (q, false) → q ≡ p
complete_r2-unchanged name p q e =
    let same = ok_injective _ (q, false) e in
    let (a, b) = neither (is_blank p.prefix) _ (ap (λ r. r.1) same) in
    let kept : with_r2_defaults p ≡ p = rw (a, b) refl in sym (ap (λ r. r.0) same) ∙ kept

complete_webdav-unchanged :
    (name : Str) (p q : WebDavProfile) → complete_webdav name p ≡ ok (q, false) → q ≡ p
complete_webdav-unchanged name p q e =
    let same = ok_injective _ (q, false) e in
    let blank : is_blank p.remote_dir ≡ false = ap (λ r. r.1) same in
    sym (ap (λ r. r.0) same) ∙ rw blank refl

complete_ftp-unchanged :
    (name : Str) (p q : FtpProfile) → complete_ftp name p ≡ ok (q, false) → q ≡ p
complete_ftp-unchanged name p q e =
    let same = ok_injective _ (q, false) e in
    let blank : is_blank p.remote_dir ≡ false = ap (λ r. r.1) same in
    sym (ap (λ r. r.0) same) ∙ rw blank refl

load_r2_profile-IsStored :
    (allow_prompt : Bool) (terminal : Option Lines) (name : Str) (profiles : Map R2Profile)
    (s : Selection R2Profile)
    → load_r2_profile_from_path allow_prompt terminal name profiles ≡ ok s
    → IsStored name profiles s
unfolding load_r2_profile_from_path
load_r2_profile-IsStored allow_prompt terminal name profiles s e =
    load_profile-IsStored r2 complete_r2-unchanged allow_prompt terminal name profiles s e

module _ (parse_url : Str → Option Url) where
  load_webdav_profile-IsStored :
      (allow_prompt : Bool) (terminal : Option Lines) (name : Str) (profiles : Map WebDavProfile)
      (s : Selection WebDavProfile)
      → load_webdav_profile_from_path parse_url allow_prompt terminal name profiles ≡ ok s
      → IsStored name profiles s
  unfolding load_webdav_profile_from_path
  load_webdav_profile-IsStored allow_prompt terminal name profiles s e =
      load_profile-IsStored (webdav parse_url) complete_webdav-unchanged allow_prompt terminal name
        profiles s e

  load_ftp_profile-IsStored :
      (allow_prompt : Bool) (terminal : Option Lines) (name : Str) (profiles : Map FtpProfile)
      (s : Selection FtpProfile)
      → load_ftp_profile_from_path parse_url allow_prompt terminal name profiles ≡ ok s
      → IsStored name profiles s
  unfolding load_ftp_profile_from_path
  load_ftp_profile-IsStored allow_prompt terminal name profiles s e =
      load_profile-IsStored (ftp parse_url) complete_ftp-unchanged allow_prompt terminal name
        profiles s e
