-- ===== src/Web/Target.antt =====
-- The paths of src/web/directory.rs: from the path of a request to the segments and the target
-- below the root, and from segments to a link. Percent coding and `canonicalize` are parameters.
pub mod Links
use ii.Prelude.{
  Bool, true, false, ◌||◌, Option, none, some, List, [], ◌∷◌, ◌++◌, map, if◌then◌else◌, ◌==◌,
  and_then, is_some,
}
use ii.Prelude.Text.{Str, codes, str_eq, contains, split, strip_prefix}
use ii.Dav.Path.{FilePath, starts_with, is_bad_segment}

-- `strip_suffix` of a slash.
unfoldable pub strip_slash : Str → Option Str
strip_slash [] = none
strip_slash (c ∷ []) = if c == b'/' then some [] else none
strip_slash (c ∷ d ∷ s) = and_then (strip_slash (d ∷ s)) λ rest. some (c ∷ rest)

-- `join` with a slash.
unfoldable pub join_slash : List Str → Str
join_slash [] = []
join_slash (part ∷ []) = part
join_slash (part ∷ next ∷ parts) = part ++ b'/' ∷ join_slash (next ∷ parts)

unfoldable pub web_directory_href : (Str → Str) → FilePath → Bool → Str
unfolding join_slash
web_directory_href percent_encode [] is_dir = codes "./"
web_directory_href percent_encode (segment ∷ segments) is_dir =
    join_slash (map percent_encode (segment ∷ segments)) ++ (if is_dir then b'/' ∷ [] else [])

module _ (percent_decode : Str → Option Str) where
  -- The loop over the parts of the path.
  unfoldable pub decode_parts : List Str → Option FilePath
  decode_parts [] = some []
  decode_parts (encoded ∷ parts) =
      let rest = decode_parts parts in
      if str_eq encoded []
      then none
      else and_then (percent_decode encoded) λ segment.
        if is_bad_segment segment then none else and_then rest λ segments. some (segment ∷ segments)

  unfoldable pub parts_of : Str → Option FilePath
  unfolding decode_parts
  parts_of path = if str_eq path [] then some [] else decode_parts (split b'/' path)

  -- The segments of `web_directory_target`, and whether a slash ends the path.
  unfoldable pub directory_segments : Str → Option (FilePath × Bool)
  unfolding parts_of
  directory_segments path =
      if is_some (strip_prefix (b'/' ∷ []) path) || contains b'?' path
      then none
      else elim (strip_slash path) [
        | some rest ↦ and_then (parts_of rest) λ segments. some (segments, true)
        | none ↦ and_then (parts_of path) λ segments. some (segments, false)
      ]

  unfoldable pub web_directory_target :
      (FilePath → Option FilePath) → FilePath → Str → Option (FilePath × FilePath × Bool)
  unfolding directory_segments
  web_directory_target canonicalize root path = and_then (directory_segments path) λ found.
      and_then (canonicalize (root ++ found.0))
        λ target. if starts_with target root then some (target, found.0, found.1) else none
