-- ===== src/Dav/Path.antt =====
-- Paths of src/web/dav.rs: what the standard library does with them, the decoding of a request
-- path, and the targets inside the root. `canonicalize` of the file system and percent decoding
-- are parameters.
pub mod Prefix
pub mod Inside
use ii.Prelude.{
  ℕ, ◌≡◌, Bool, true, false, not, ◌&&◌, ◌||◌, Option, none, some, List, [], ◌∷◌, ◌++◌, any, is_some,
  if◌then◌else◌, and_then, ◌==◌,
}
use ii.Prelude.Text.{Str, codes, str_eq, contains, split, trim_end, strip_prefix}

abbrev pub FilePath : Type 0
FilePath = List Str

-- `Path::starts_with` compares whole components; `strip_prefix` gives the rest.
abbrev pub strip_path : FilePath → FilePath → Option FilePath
strip_path [] path = some path
strip_path (a ∷ base) [] = none
strip_path (a ∷ base) (b ∷ path) = if str_eq a b then strip_path base path else none

abbrev pub starts_with : FilePath → FilePath → Bool
starts_with path base = is_some (strip_path base path)

abbrev pub path_eq : FilePath → FilePath → Bool
path_eq [] [] = true
path_eq [] (b ∷ q) = false
path_eq (a ∷ p) [] = false
path_eq (a ∷ p) (b ∷ q) = str_eq a b && path_eq p q

unfoldable pub parent : FilePath → Option FilePath
parent [] = none
parent (a ∷ []) = some []
parent (a ∷ b ∷ path) = elim (parent (b ∷ path)) [ none ↦ none | some p ↦ some (a ∷ p) ]

unfoldable pub file_name : FilePath → Option Str
file_name [] = none
file_name (a ∷ []) = some a
file_name (a ∷ b ∷ path) = file_name (b ∷ path)

-- `Path::components` of a single segment of text, on Unix.
pub data Component : Type 0 where
  root_dir cur_dir parent_dir : Component
  normal : Str → Component

-- A dot is a component only at the start of the text; elsewhere it is dropped, as an empty part is.
later_components : List Str → List Component
later_components [] = []
later_components (part ∷ parts) =
    let rest = later_components parts in
    if str_eq part [] || str_eq part (codes ".")
    then rest
    else if str_eq part (codes "..")
    then parent_dir ∷ rest
    else normal part ∷ rest

first_component : Str → List Component
first_component part =
    if str_eq part []
    then root_dir ∷ []
    else if str_eq part (codes ".")
    then cur_dir ∷ []
    else if str_eq part (codes "..")
    then parent_dir ∷ []
    else normal part ∷ []

components_of : List Str → List Component
components_of [] = []
components_of (part ∷ parts) = first_component part ++ later_components parts

unfoldable pub components : Str → List Component
unfolding components_of first_component later_components
components [] = []
components (c ∷ text) = components_of (split b'/' (c ∷ text))

-- Exactly one component, and a normal one.
unfoldable pub is_one_normal : List Component → Bool
is_one_normal (normal a ∷ []) = true
is_one_normal _ = false

-- The test of a decoded segment; `true` refuses it.
unfoldable pub is_bad_segment : Str → Bool
unfolding components is_one_normal
is_bad_segment segment =
    str_eq segment []
    || str_eq segment (codes ".")
    || str_eq segment (codes "..")
    || contains b'/' segment
    || contains b'\\' segment
    || contains 0 segment
    || not (is_one_normal (components segment))

abbrev pub is_slash : ℕ → Bool
is_slash c = c == b'/'

module _ (percent_decode : Str → Option Str) where
  -- The loop of `dav_relative_path` over the segments that are not empty.
  unfoldable pub decode_segments : List Str → Option FilePath
  decode_segments [] = some []
  decode_segments (segment ∷ segments) =
      let rest = decode_segments segments in
      if str_eq segment []
      then rest
      else and_then (percent_decode segment) λ decoded.
        if is_bad_segment decoded then none else and_then rest λ path. some (decoded ∷ path)

  unfoldable pub dav_relative_path : Str → Option FilePath
  unfolding decode_segments
  dav_relative_path path =
      if is_some (strip_prefix (b'/' ∷ []) path) || contains b'?' path
      then none
      else decode_segments (split b'/' (trim_end is_slash path))

module _ (canonicalize : FilePath → Option FilePath) where
  unfoldable pub existing_target : FilePath → FilePath → Option FilePath
  existing_target root relative =
      and_then (canonicalize (root ++ relative))
        λ target. if starts_with target root then some target else none

  unfoldable pub writable_target : FilePath → FilePath → Option FilePath
  writable_target root relative = and_then (parent (root ++ relative)) λ parent_path.
      and_then (canonicalize parent_path) λ canonical.
        if not (starts_with canonical root)
        then none
        else and_then (file_name (root ++ relative)) λ name. some (canonical ++ name ∷ [])

  unfoldable pub existing_or_writable_target : FilePath → FilePath → Option FilePath
  unfolding existing_target writable_target
  existing_or_writable_target root relative = elim (existing_target root relative) [
    | some target ↦ some target
    | none ↦ writable_target root relative
  ]
