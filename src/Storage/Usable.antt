-- ===== src/Storage/Usable.antt =====
-- What a profile that src/storage/profiles.rs gives can be used for.
use ii.Prelude.{
  ◌==◌, ◌≡◌, Bool, true, false, not, ◌&&◌, Option, none, some, List, [], ◌∷◌, or_else, ok,
  bind_inverse, refl, sym, ◌∙◌, ap, Bool-cases, inl, inr, arith,
}
use ii.Prelude.Text.{Str, str_eq, trim}
use ii.Storage.{Lines, Map, Kind, Selection, get, fill, is_blank, Url}
use ii.Storage.S3.{
  S3Profile, s3, is_http, prompt_missing_s3_fields, ask_s3_fields, with_defaults, cloudflare_r2,
  validate_s3_profile, load_s3_profile_from_path,
}
use ii.Storage.Stored.{
  load_profile_inverse, select_inverse, complete_s3_inverse, s3_inverse, ok_injective,
}

-- The fields that no prompt changes.
abbrev Kept : S3Profile → S3Profile → Type 0
Kept p q =
    (q.provider ≡ p.provider)
    × (q.prefix ≡ p.prefix)
    × (q.presign_ttl_seconds ≡ p.presign_ttl_seconds)

prompt_missing_s3_fields-Kept :
    (is_new : Bool) (p q : S3Profile) (lines rest : Lines)
    → prompt_missing_s3_fields is_new p lines ≡ ok (q, rest)
    → Kept p q
unfolding prompt_missing_s3_fields
prompt_missing_s3_fields-Kept is_new p q lines rest e =
    let (answers, _, made) = bind_inverse (ask_s3_fields is_new p lines) _ (q, rest) e in
    let same = ok_injective _ (q, rest) made in
    (
      ap (λ r. S3Profile.provider (r.0)) (sym same),
      ap (λ r. S3Profile.prefix (r.0)) (sym same),
      ap (λ r. S3Profile.presign_ttl_seconds (r.0)) (sym same),
    )

both : (a b : Bool) → (a && b) ≡ true → (a ≡ true) × (b ≡ true)
both true b h = (refl, h)
both false b h = absurd (ground arith)

negated : (b : Bool) → not b ≡ true → b ≡ false
negated true h = absurd (ground arith)
negated false h = refl

prefix_default : (p : S3Profile) → is_blank ((with_defaults p).prefix) ≡ false
prefix_default p = elim (Bool-cases (is_blank p.prefix)) [
  | inl e ↦ rw e refl
  | inr e ↦ rw (e, e) refl
]

ttl_default : (p : S3Profile) → ((with_defaults p).presign_ttl_seconds == 0) ≡ false
ttl_default p = elim (Bool-cases (p.presign_ttl_seconds == 0)) [
  | inl e ↦ rw e refl
  | inr e ↦ rw (e, e) refl
]

module _ (parse_url : Str → Option Url) where
  -- The endpoint, the bucket and the keys are not blank, the endpoint is a URL of HTTP, and the
  -- profile is none of R2.
  abbrev pub IsUsable : S3Profile → Type 0
  IsUsable p =
      (is_blank p.endpoint ≡ false)
      × (is_blank p.bucket ≡ false)
      × (is_blank p.access_key_id ≡ false)
      × (is_blank p.secret_access_key ≡ false)
      × (is_http (parse_url (trim p.endpoint)) ≡ true)
      × (str_eq p.provider cloudflare_r2 ≡ false)
      × (is_blank p.prefix ≡ false)
      × ((p.presign_ttl_seconds == 0) ≡ false)

  fill-Kept :
      (allow_prompt : Bool) (terminal : Option Lines) (is_new : Bool) (p q : S3Profile)
      (missing : List Str) (prompted : Bool)
      → fill (s3 parse_url) allow_prompt terminal is_new p missing ≡ ok (q, prompted)
      → Kept p q
  fill-Kept allow_prompt terminal is_new p q [] prompted e =
      let same = ok_injective _ (q, prompted) e in
      (
        ap (λ r. S3Profile.provider (r.0)) (sym same),
        ap (λ r. S3Profile.prefix (r.0)) (sym same),
        ap (λ r. S3Profile.presign_ttl_seconds (r.0)) (sym same),
      )
  fill-Kept true none is_new p q (field ∷ missing) prompted e = absurd (ground arith)
  fill-Kept false terminal is_new p q (field ∷ missing) prompted e = absurd (ground arith)
  fill-Kept true (some lines) is_new p q (field ∷ missing) prompted e =
      let (answer, typed, made) = bind_inverse (prompt_missing_s3_fields is_new p lines) _ _ e in
      let same = ok_injective _ (q, prompted) made in
      prompt_missing_s3_fields-Kept is_new p q lines (answer.1)
        (typed ∙ ap (λ r. ok (r.0, answer.1)) same)

  validate_s3_profile_lem :
      (p : S3Profile)
      → validate_s3_profile parse_url p ≡ true
      → (is_blank p.endpoint ≡ false)
        × (is_blank p.bucket ≡ false)
        × (is_blank p.access_key_id ≡ false)
        × (is_blank p.secret_access_key ≡ false)
        × (is_http (parse_url (trim p.endpoint)) ≡ true)
  unfolding validate_s3_profile
  validate_s3_profile_lem p h =
      let has_endpoint = not (is_blank p.endpoint) in
      let has_bucket = not (is_blank p.bucket) in
      let (h1, f) =
        both
          (has_endpoint
            && has_bucket
            && not (is_blank p.access_key_id)
            && not (is_blank p.secret_access_key))
          _ h in
      let (h2, d) = both (has_endpoint && has_bucket && not (is_blank p.access_key_id)) _ h1 in
      let (h3, c) = both (has_endpoint && has_bucket) _ h2 in
      let (a, b) = both has_endpoint _ h3 in (negated _ a, negated _ b, negated _ c, negated _ d, f)

  -- A profile that is loaded, from the configuration or from the terminal, can be used: the
  -- endpoint, the bucket, the access key id and the secret access key are not blank, the endpoint is
  -- a URL of HTTP, it is no profile of R2, and it has a prefix that is not blank and a time to live
  -- that is not zero.
  pub load_s3_profile-IsUsable :
      (allow_prompt : Bool) (terminal : Option Lines) (name : Str) (profiles : Map S3Profile)
      (s : Selection S3Profile)
      → load_s3_profile_from_path parse_url allow_prompt terminal name profiles ≡ ok s
      → IsUsable s.profile
  load_s3_profile-IsUsable allow_prompt terminal name profiles s e =
      let h = s3_inverse parse_url allow_prompt terminal name profiles s e in
      let (completed, filled, a, b, c) =
        load_profile_inverse (s3 parse_url) allow_prompt terminal name profiles s h in
      let (good, sp, _, _) =
        select_inverse (s3 parse_url) name profiles (completed.1) (filled.1) (filled.0) s c in
      let found = or_else (get name profiles) (Kind.empty (s3 parse_url)) in
      let (apart, with, _) = complete_s3_inverse name found (completed.0) (completed.1) a in
      let (kp, kx, kt) =
        fill-Kept allow_prompt terminal _ (completed.0) (filled.0) _ (filled.1) b in
      let (f1, f2, f3, f4, f5) = validate_s3_profile_lem (filled.0) good in
      rw sp (
        f1,
        f2,
        f3,
        f4,
        f5,
        rw (kp, ← with) apart,
        rw (kx, ← with) (prefix_default found),
        rw (kt, ← with) (ttl_default found),
      )
