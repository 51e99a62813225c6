-- ===== src/Dav/Tests/Disk.antt =====
-- A file system in memory and concrete arguments for the runs of src/web/dav.rs.
use ii.Prelude.{
  Bool, true, false, Option, none, some, List, [], ◌∷◌, ◌++◌, is_some, if◌then◌else◌, and_then, ok,
}
use ii.Prelude.Text.{Str, Bytes, codes, str_eq}
use ii.Http.Request.{WebRequest, absent}
use ii.Dav.Path.{FilePath, strip_path, starts_with, path_eq, parent}
use ii.Dav.Locks.{Lock}
use ii.Dav.Handlers.{FileSystem, done, already_exists, World, created_201}
use ii.Dav.Transfer.{Instants}
use ii.Dav.Server.{Setting, Connection, Config}

-- A file system in memory: the paths, a directory without and a file with its content.
abbrev pub Files : Type 0
Files = List (FilePath × Option Bytes)

find : FilePath → Files → Option (Option Bytes)
find path [] = none
find path ((p, entry) ∷ files) = if path_eq p path then some entry else find path files

without : FilePath → Files → Files
without path [] = []
without path ((p, entry) ∷ files) =
    let rest = without path files in if starts_with p path then rest else (p, entry) ∷ rest

below : FilePath → FilePath → Files → Files
below source destination [] = []
below source destination ((p, entry) ∷ files) =
    let rest = below source destination files in
    elim (strip_path source p) [ none ↦ rest | some s ↦ (destination ++ s, entry) ∷ rest ]

children : FilePath → Files → List FilePath
children path [] = []
children path ((p, entry) ∷ files) =
    let rest = children path files in
    elim (parent p) [ none ↦ rest | some q ↦ if path_eq q path then p ∷ rest else rest ]

is_none : Option Bytes → Bool
is_none none = true
is_none (some content) = false

unfoldable pub disk : FileSystem Files
unfolding find without below children is_none
disk = record {
  canonicalize = λ files path. and_then (find path files) λ entry. some path;
  is_dir = λ files path. and_then (find path files) λ entry. some (is_none entry);
  read_dir = λ files path. some (children path files);
  create_dir = λ files path.
      if is_some (find path files) then (files, already_exists) else ((path, none) ∷ files, done);
  remove_dir_all = λ files path. (without path files, true);
  remove_file = λ files path. (without path files, true);
  rename = λ files source destination.
      if is_some (find source files)
      then (below source destination files ++ without source (without destination files), true)
      else (files, false);
  copy_path = λ files source destination.
      if is_some (find source files)
      then (below source destination files ++ without destination files, true)
      else (files, false);
  new_temp_in = λ files path.
      ((path ++ codes ".tmp" ∷ [], some []) ∷ files, some (path ++ codes ".tmp" ∷ []));
  write = λ files path content. ((path, some content) ∷ without path files, none);
}

abbrev pub root : FilePath
root = codes "srv" ∷ []

abbrev pub file_a : FilePath
file_a = codes "srv" ∷ codes "a" ∷ []

abbrev pub file_b : FilePath
file_b = codes "srv" ∷ codes "b" ∷ []

abbrev pub held : Lock
held = record { token = codes "opaquelocktoken:1"; expires = 3_600_000_000_000 }

abbrev pub files : Files
files = (root, none) ∷ (file_a, some (codes "old")) ∷ []

abbrev pub world : World Files
world = record { files = files; locks = (file_a, held) ∷ [] }

abbrev pub request_of : Str → Str → List (Str × Str) → WebRequest
request_of method target headers = record {
  method = method;
  target = target;
  content_length = none;
  range = absent;
  body = [];
  headers = headers;
}

abbrev pub put_a : WebRequest
put_a = request_of (codes "PUT") (codes "/a") []

abbrev pub put_a_with_token : WebRequest
put_a_with_token =
    request_of (codes "PUT") (codes "/a") ((codes "If", codes "(<opaquelocktoken:1>)") ∷ [])

-- The parameters: text that needs no decoding, and one encoded user.
abbrev pub encoded_user : Str
encoded_user = codes "YTpi"

unfoldable pub base64_decode : Str → Option Bytes
base64_decode text = if str_eq text encoded_user then some (codes "a:b") else none

abbrev pub plain : Str → Option Str
plain text = some text

abbrev pub no_url : Str → Option Str
no_url text = none

abbrev pub setting : Setting Files
setting = record {
  percent_decode = plain;
  percent_encode = λ text. text;
  url_path = no_url;
  base64_decode = base64_decode;
  write_directory = λ files request head. some created_201;
  prop_response = λ files path. some [];
}

abbrev pub instants : Instants
instants = record { at_source = 5; at_destination = 6; at_move = 7 }

abbrev pub connection : Connection
connection = record {
  now = 5;
  instants = instants;
  later = 6;
  fresh = codes "opaquelocktoken:2";
  received = ok (codes "new");
}

abbrev pub config : Config
config = record { root = root; token = none; read_only = false; basic_auth = none }
