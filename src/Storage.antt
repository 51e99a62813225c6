-- ===== src/Storage.antt =====
-- The profiles of src/storage/profiles.rs: a profile is looked up in the configuration, completed by
-- defaults and by what is typed at the terminal, checked, and put back. The configuration is the map
-- of one kind of profile, in the order of its names; reading and writing its file is done by a
-- library, as is the parsing of URLs.
pub mod S3
pub mod R2
pub mod WebDav
pub mod Keys
pub mod Kinds
pub mod Maps
pub mod Stored
pub mod Usable
mod Tests
use ii.Prelude.{
  ℕ, ◌==◌, Bool, true, false, not, ◌&&◌, ◌||◌, Option, none, some, List, [], ◌∷◌, if◌then◌else◌,
  ltb, or_else, is_some, Result, ok, err, ◌>>=◌,
}
use ii.Prelude.Text.{Str, codes, str_eq, trim}

abbrev pub default_prefix : Str
default_prefix = codes "ii/"

abbrev pub default_presign_ttl_seconds : ℕ
default_presign_ttl_seconds = 86400

abbrev pub default_name : Str
default_name = codes "default"

pub record Url : Type 0 where
  pub scheme : Str
  pub host_str : Option Str

pub data LoadError : Type 0 where
  moved : Str → LoadError
  missing_fields : List Str → LoadError
  bad_input : LoadError
  invalid : LoadError

-- What is typed, line by line; `none` is an error of reading. At the end of the input `read_line`
-- gives an empty text.
abbrev pub Lines : Type 0
Lines = List (Option Str)

abbrev pub is_empty : Str → Bool
is_empty [] = true
is_empty (c ∷ s) = false

abbrev pub is_blank : Str → Bool
is_blank s = is_empty (trim s)

unfoldable pub prompt_line : Lines → Result (Str × Lines) LoadError
prompt_line [] = err bad_input
prompt_line (none ∷ lines) = err bad_input
prompt_line (some line ∷ lines) =
    let value = trim line in if is_empty value then err bad_input else ok (value, lines)

unfoldable pub prompt_optional_line : Lines → Result (Str × Lines) LoadError
prompt_optional_line [] = ok ([], [])
prompt_optional_line (none ∷ lines) = err bad_input
prompt_optional_line (some line ∷ lines) = ok (trim line, lines)

-- A field that is asked for if it is blank.
unfoldable pub prompt_field : Str → Lines → Result (Str × Lines) LoadError
unfolding prompt_line
prompt_field value lines = if is_blank value then prompt_line lines else ok (value, lines)

abbrev pub push_blank : Str → Str → List Str → List Str
push_blank name value missing = if is_blank value then name ∷ missing else missing

-- The map of the configuration, `BTreeMap`.
abbrev pub Map : Type 0 → Type 0
Map P = List (Str × P)

abbrev pub str_lt : Str → Str → Bool
str_lt s [] = false
str_lt [] (b ∷ t) = true
str_lt (a ∷ s) (b ∷ t) = ltb a b || (a == b && str_lt s t)

abbrev pub get : {P : Type 0} → Str → Map P → Option P
get name [] = none
get name ((key, profile) ∷ profiles) = if str_eq key name then some profile else get name profiles

abbrev pub insert : {P : Type 0} → Str → P → Map P → Map P
insert name profile [] = (name, profile) ∷ []
insert name profile ((key, old) ∷ profiles) =
    let rest = insert name profile profiles in
    if str_eq key name
    then (name, profile) ∷ profiles
    else if str_lt name key
    then (name, profile) ∷ (key, old) ∷ profiles
    else (key, old) ∷ rest

-- What the kinds of profile have of their own. `complete` gives the profile with its defaults, and
-- whether that changed it; `prompt` is told whether the profile is new.
pub record Kind (P : Type 0) : Type 0 where
  pub empty : P
  pub complete : Str → P → Result (P × Bool) LoadError
  pub missing : P → List Str
  pub prompt : Bool → P → Lines → Result (P × Lines) LoadError
  pub validate : P → Bool

pub record Selection (P : Type 0) : Type 0 where
  pub profiles : Map P
  pub profile : P
  pub save_after_success : Bool

module _ {P : Type 0} (kind : Kind P) where
  abbrev ask : Bool → P → List Str → Option Lines → Result (P × Bool) LoadError
  ask is_new profile missing none = err (missing_fields missing)
  ask is_new profile missing (some lines) =
      kind.prompt is_new profile lines >>= λ answer. ok (answer.0, true)

  -- Missing fields are asked for at a terminal, if that is allowed.
  abbrev pub fill : Bool → Option Lines → Bool → P → List Str → Result (P × Bool) LoadError
  fill allow_prompt terminal is_new profile [] = ok (profile, false)
  fill allow_prompt terminal is_new profile (field ∷ missing) =
      ask is_new profile (field ∷ missing) (if allow_prompt then terminal else none)

  abbrev pub select : Str → Map P → Bool → P × Bool → Result (Selection P) LoadError
  select name profiles changed (profile, prompted) =
      if kind.validate profile
      then ok (record {
        profiles = insert name profile profiles;
        profile = profile;
        save_after_success = changed || prompted || not (is_some (get name profiles));
      })
      else err invalid

  unfoldable pub load_profile : Bool → Option Lines → Str → Map P → Result (Selection P) LoadError
  load_profile allow_prompt terminal name profiles =
      let found = get name profiles in
      kind.complete name (or_else found kind.empty) >>= λ completed.
      fill allow_prompt terminal (not (is_some found)) (completed.0) (kind.missing (completed.0))
      >>= λ filled. select name profiles (completed.1) filled
