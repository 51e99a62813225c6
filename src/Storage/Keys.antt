-- ===== src/Storage/Keys.antt =====
-- The names of objects in src/storage/profiles.rs and src/backend/mod.rs.
pub mod Parts
use ii.Prelude.{
  ℕ, ◌-◌, ◌/◌, ◌%◌, ◌+◌, ◌==◌, Bool, true, false, ◌&&◌, ◌||◌, List, [], ◌∷◌, ◌++◌, map,
  if◌then◌else◌, leb, ltb, Option, none, some,
}
use ii.Prelude.Text.{Str, Bytes, codes, str_eq, trim_matches, split}
use ii.Storage.{is_empty, is_blank}

-- The characters of a name that file systems do not take, and the control characters.
abbrev pub is_unsafe : ℕ → Bool
is_unsafe c =
    c == b'/'
    || c == b'\\'
    || c == b':'
    || c == b'*'
    || c == b'?'
    || c == b'"'
    || c == b'<'
    || c == b'>'
    || c == b'|'
    || ltb c 32
    || (leb 127 c && ltb c 160)

abbrev pub cleaned : Str → Str
cleaned name = map (λ c. if is_unsafe c then b'_' else c) name

unfoldable pub safe_key_component : Str → Str
safe_key_component name = if is_blank (cleaned name) then codes "ii-object" else cleaned name

-- The key below the prefix, which has no slash at its ends.
abbrev pub join_key : Str → Str → Str
join_key [] last = last
join_key (c ∷ prefix) last = c ∷ prefix ++ b'/' ∷ last

unfoldable pub normalized_object_key : Str → Str → Str → Str
unfolding safe_key_component
normalized_object_key prefix random_id name =
    join_key (trim_matches (λ c. c == b'/') prefix) (random_id ++ b'-' ∷ safe_key_component name)

abbrev pub nibble : ℕ → ℕ
nibble n = if ltb n 10 then b'0' + n else b'a' + n - 10

unfoldable pub hex_lower : Bytes → Str
hex_lower [] = []
hex_lower (byte ∷ bytes) = nibble (byte / 16) ∷ nibble (byte % 16) ∷ hex_lower bytes

unfoldable pub content_addressed_object_key : Str → Bytes → Str
unfolding hex_lower
content_addressed_object_key prefix content_md5 =
    join_key (trim_matches (λ c. c == b'/') prefix) (hex_lower content_md5)

abbrev pub present : List Str → List Str
present [] = []
present (part ∷ parts) = let rest = present parts in if is_empty part then rest else part ∷ rest

abbrev pub is_dots : List Str → Bool
is_dots [] = false
is_dots (part ∷ parts) = str_eq part (codes ".") || str_eq part (codes "..") || is_dots parts

abbrev pub checked_parts : List Str → Option (List Str)
checked_parts [] = none
checked_parts (part ∷ parts) = if is_dots (part ∷ parts) then none else some (part ∷ parts)

unfoldable pub remote_path_parts : Str → Option (List Str)
remote_path_parts path = checked_parts (present (split b'/' (trim_matches (λ c. c == b'/') path)))
