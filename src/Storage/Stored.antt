-- ===== src/Storage/Stored.antt =====
-- What loading a profile in src/storage/profiles.rs does to the configuration.
use ii.Prelude.{
  ◌≡◌, ◌≢◌, Bool, true, false, not, ◌||◌, Option, none, some, List, [], ◌∷◌, or_else, is_some,
  Result, ok, bind_inverse, refl, sym, ◌∙◌, ap, Bool-cases, inl, inr, arith,
}
use ii.Prelude.Text.{Str, str_eq}
use ii.Storage.{
  LoadError, Lines, Map, Kind, Selection, get, insert, fill, select, load_profile, Url, is_blank,
}
use ii.Storage.Maps.{get-insert, get-insert_other}
use ii.Storage.S3.{
  S3Profile, s3, complete_s3, cloudflare_r2, with_defaults, lacks_defaults, unless_moved,
  load_s3_profile_from_path,
}

-- The profile is under its name, the others are as they were, and nothing is lost if the
-- configuration is not saved.
abbrev pub IsStored : {P : Type 0} → Str → Map P → Selection P → Type 0
IsStored {P} name profiles selection =
    (get name selection.profiles ≡ some selection.profile)
    × ((other : Str) → other ≢ name → get other selection.profiles ≡ get other profiles)
    × (selection.save_after_success ≡ false → get name profiles ≡ some selection.profile)

pub ok_injective : {A : Type 0} (a b : A) → ◌≡◌ {A = Result A LoadError} (ok a) (ok b) → a ≡ b
ok_injective a b e = ground arith

module _ {P : Type 0} (kind : Kind P) where
  fill-unprompted :
      (allow_prompt : Bool) (terminal : Option Lines) (is_new : Bool) (p q : P) (missing : List Str)
      → fill kind allow_prompt terminal is_new p missing ≡ ok (q, false)
      → q ≡ p
  fill-unprompted allow_prompt terminal is_new p q [] e = ground arith
  fill-unprompted true none is_new p q (field ∷ missing) e = absurd (ground arith)
  fill-unprompted false terminal is_new p q (field ∷ missing) e = absurd (ground arith)
  fill-unprompted true (some lines) is_new p q (field ∷ missing) e =
      let (answer, typed, made) = bind_inverse (kind.prompt is_new p lines) _ _ e in
      absurd (ground arith)

  pub load_profile_inverse :
      (allow_prompt : Bool) (terminal : Option Lines) (name : Str) (profiles : Map P)
      (s : Selection P)
      → load_profile kind allow_prompt terminal name profiles ≡ ok s
      → (completed : P × Bool) × (filled : P × Bool) × (kind.complete name
            (or_else (get name profiles) kind.empty)
          ≡ ok completed)
        × (fill kind allow_prompt terminal
              (not (is_some (get name profiles)))
              (completed.0)
              (kind.missing (completed.0))
            ≡ ok filled)
        × (select kind name profiles (completed.1) filled ≡ ok s)
  unfolding load_profile
  load_profile_inverse allow_prompt terminal name profiles s e =
      let (completed, a, rest) = bind_inverse _ _ s e in
      let (filled, b, c) = bind_inverse _ _ s rest in (completed, filled, a, b, c)

  pub select_inverse :
      (name : Str) (profiles : Map P) (changed prompted : Bool) (p : P) (s : Selection P)
      → select kind name profiles changed (p, prompted) ≡ ok s
      → (kind.validate p ≡ true)
        × (s.profile ≡ p)
        × (s.profiles ≡ insert name p profiles)
        × (s.save_after_success ≡ (changed || prompted || not (is_some (get name profiles))))
  select_inverse name profiles changed prompted p s e = elim (Bool-cases (kind.validate p)) [
    | inl good ↦
        let same = ok_injective _ s (rw good at e) in
        (
          good,
          ap (λ r. Selection.profile r) (sym same),
          ap (λ r. Selection.profiles r) (sym same),
          ap (λ r. Selection.save_after_success r) (sym same),
        )
    | inr bad ↦ let h = rw bad at e in absurd (ground arith)
  ]

module _ {P : Type 0} (kind : Kind P)
    (unchanged : (name : Str) (p q : P) → kind.complete name p ≡ ok (q, false) → q ≡ p) where
  kept :
      (allow_prompt : Bool) (terminal : Option Lines) (name : Str) (found : Option P) (p q : P)
      (changed prompted : Bool)
      → kind.complete name (or_else found kind.empty) ≡ ok (p, changed)
      → fill kind allow_prompt terminal (not (is_some found)) p (kind.missing p) ≡ ok (q, prompted)
      → (changed || prompted || not (is_some found)) ≡ false
      → found ≡ some q
  kept allow_prompt terminal name found p q true prompted a b h = absurd (ground arith)
  kept allow_prompt terminal name found p q false true a b h = absurd (ground arith)
  kept allow_prompt terminal name none p q false false a b h = absurd (ground arith)
  kept allow_prompt terminal name (some r) p q false false a b h = ap some (
      sym (
        fill-unprompted kind allow_prompt terminal false p q (kind.missing p) b
        ∙ unchanged name r p a))

  pub load_profile-IsStored :
      (allow_prompt : Bool) (terminal : Option Lines) (name : Str) (profiles : Map P)
      (s : Selection P)
      → load_profile kind allow_prompt terminal name profiles ≡ ok s
      → IsStored name profiles s
  load_profile-IsStored allow_prompt terminal name profiles s e =
      let (completed, filled, a, b, c) =
        load_profile_inverse kind allow_prompt terminal name profiles s e in
      let q = filled.0 in
      let (good, sp, sm, ss) = select_inverse kind name profiles (completed.1) (filled.1) q s c in
      (
        ap (get name) sm ∙ get-insert name q profiles ∙ ap some (sym sp),
        λ other h. ap (get other) sm ∙ get-insert_other name other q profiles h,
        λ h.
            kept allow_prompt terminal name (get name profiles) (completed.0) q (completed.1)
              (filled.1) a b (sym ss ∙ h)
            ∙ ap some (sym sp),
      )

pub neither : (a b : Bool) → (a || b) ≡ false → (a ≡ false) × (b ≡ false)
neither true b h = absurd (ground arith)
neither false b h = (refl, h)

with_defaults-unchanged : (p : S3Profile) → lacks_defaults p ≡ false → with_defaults p ≡ p
with_defaults-unchanged p h =
    let (h1, d) = neither (is_blank p.provider || is_blank p.region || is_blank p.prefix) _ h in
    let (h2, c) = neither (is_blank p.provider || is_blank p.region) _ h1 in
    let (a, b) = neither (is_blank p.provider) _ h2 in rw (a, b, c, d) refl

pub complete_s3_inverse :
    (name : Str) (p q : S3Profile) (changed : Bool)
    → complete_s3 name p ≡ ok (q, changed)
    → (str_eq ((with_defaults p).provider) cloudflare_r2 ≡ false)
      × (with_defaults p ≡ q)
      × (lacks_defaults p ≡ changed)
unfolding complete_s3
complete_s3_inverse name p q changed e =
    elim (Bool-cases (str_eq ((with_defaults p).provider) cloudflare_r2)) [
      | inl g ↦ let h = rw g at e in absurd (ground arith)
      | inr g ↦
          let h = ok_injective _ (q, changed) (rw g at e) in (g, ap (λ r. r.0) h, ap (λ r. r.1) h)
    ]

complete_s3-unchanged : (name : Str) (p q : S3Profile) → complete_s3 name p ≡ ok (q, false) → q ≡ p
complete_s3-unchanged name p q e =
    let (_, same, lacks) = complete_s3_inverse name p q false e in
    sym same ∙ with_defaults-unchanged p lacks

unless_moved_inverse :
    (legacy : Option Str) (loaded : Result (Selection S3Profile) LoadError)
    (s : Selection S3Profile)
    → unless_moved legacy loaded ≡ ok s
    → loaded ≡ ok s
unless_moved_inverse none loaded s e = e
unless_moved_inverse (some legacy_name) loaded s e = absurd (ground arith)

pub s3_inverse :
    (parse_url : Str → Option Url) (allow_prompt : Bool) (terminal : Option Lines) (name : Str)
    (profiles : Map S3Profile) (s : Selection S3Profile)
    → load_s3_profile_from_path parse_url allow_prompt terminal name profiles ≡ ok s
    → load_profile (s3 parse_url) allow_prompt terminal name profiles ≡ ok s
unfolding load_s3_profile_from_path
s3_inverse parse_url allow_prompt terminal name profiles s e = unless_moved_inverse _ _ s e

-- After loading an S3 profile, the configuration has it under its name, all other profiles are as
-- they were, and if the configuration is not to be saved then the profile is the one that was
-- there before.
pub load_s3_profile-IsStored :
    (parse_url : Str → Option Url) (allow_prompt : Bool) (terminal : Option Lines) (name : Str)
    (profiles : Map S3Profile) (s : Selection S3Profile)
    → load_s3_profile_from_path parse_url allow_prompt terminal name profiles ≡ ok s
    → IsStored name profiles s
load_s3_profile-IsStored parse_url allow_prompt terminal name profiles s e =
    load_profile-IsStored (s3 parse_url) complete_s3-unchanged allow_prompt terminal name profiles s
      (s3_inverse parse_url allow_prompt terminal name profiles s e)
