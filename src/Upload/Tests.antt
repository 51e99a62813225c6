-- ===== src/Upload/Tests.antt =====
-- Runs of src/web/upload.rs on files in memory, and instances of the theorems.
use ii.Prelude.{
  ◌≡◌, refl, Bool, true, false, Option, none, some, List, [], ◌∷◌, ◌++◌, if◌then◌else◌, ok, arith,
}
use ii.Prelude.Text.{Str, Bytes, codes}
use ii.Prelude.Number.{parse_uint, to_string}
use ii.Dav.Path.{FilePath, path_eq}
use ii.Dav.Path.Prefix.{path_eq_refl}
use ii.Upload.Query.{
  query_value, upload_name, is_bad_name, parse_size, is_session_id, parse_session_id,
  parse_content_range, IsPlain, upload_name-IsPlain,
}
use ii.Upload.Sessions.{
  UploadSession, UploadFiles, Uploads, unexpired, remove_expired, cleanup_expired, cleanup_all,
  open_session, create_session, session_head,
}
use ii.Upload.Chunks.{
  checked_add, checked_sub, expected_length, write_body, finish_chunk, accept_chunk,
  write_upload_chunk,
}
use ii.Upload.Assembly.{IsLawful, received, Effect, accept_chunk-effect}

abbrev Files : Type 0
Files = List (FilePath × Bytes)

abbrev content : Files → FilePath → Option Bytes
content [] path = none
content ((p, bytes) ∷ files) path = if path_eq p path then some bytes else content files path

abbrev without : FilePath → Files → Files
without path [] = []
without path ((p, bytes) ∷ files) =
    let rest = without path files in if path_eq p path then rest else (p, bytes) ∷ rest

appended : Files → FilePath → Bytes → Option Bytes → Files × Bool
appended files path bytes none = (files, false)
appended files path bytes (some old) = ((path, old ++ bytes) ∷ without path files, true)

renamed : Files → FilePath → FilePath → Option Bytes → Files × Option Str
renamed files from to none = (files, some (codes "no such file"))
renamed files from to (some bytes) = ((to, bytes) ∷ without from files, none)

abbrev temp : FilePath
temp = codes "up" ∷ codes ".tmp" ∷ []

memory : UploadFiles Files
unfolding appended renamed
memory = record {
  display = λ path. [];
  create_dir_all = λ files path. (files, none);
  new_temp_in = λ files path. ((temp, []) ∷ files, ok temp);
  keep = λ files path. (files, none);
  can_open = λ files path. true;
  append = λ files path bytes. appended files path bytes (content files path);
  flush = λ files path. (files, true);
  remove_file = λ files path. without path files;
  rename = λ files from to. renamed files from to (content files from);
}

memory-append :
    (files : Files) (path : FilePath) (old bytes : Bytes)
    → content files path ≡ some old
    → (memory.append files path bytes).1 ≡ true
    → content (memory.append files path bytes).0 path ≡ some (old ++ bytes)
unfolding memory appended
memory-append files path old bytes h e = rw (h, appended) (rw (path_eq_refl path) refl)

memory-rename :
    (files : Files) (from to : FilePath) (bytes : Bytes)
    → content files from ≡ some bytes
    → (memory.rename files from to).1 ≡ none
    → content (memory.rename files from to).0 to ≡ some bytes
unfolding memory renamed
memory-rename files from to bytes h e = rw (h, renamed) (rw (path_eq_refl to) refl)

memory-IsLawful : IsLawful memory content
unfolding memory
memory-IsLawful = record {
  append_law = memory-append;
  flush_law = λ files path. refl;
  rename_law = memory-rename;
}

printer : Unit {0}
unfolding memory appended renamed query_value upload_name is_bad_name parse_size is_session_id
    parse_session_id parse_content_range unexpired remove_expired cleanup_expired cleanup_all
    open_session create_session session_head checked_add checked_sub expected_length write_body
    finish_chunk accept_chunk write_upload_chunk parse_uint to_string
printer = tt

abbrev plain : Str → Option Str
plain text = some text

abbrev upload_dir : FilePath
upload_dir = codes "up" ∷ []

abbrev empty : Uploads Files
empty = record { files = []; sessions = [] }

abbrev first_target : Str
first_target = codes "upload/init?name=a.txt&size=5"

abbrev first : Uploads Files
first = (create_session memory plain 1 empty upload_dir first_target (codes "0f")).0

abbrev chunk_target : Str
chunk_target = codes "upload?name=a.txt&upload=0f"

abbrev second : Uploads Files
second =
    (write_upload_chunk memory 2 first upload_dir chunk_target (some 3) (some (codes "bytes 0-2/5"))
      (codes "he") (codes "lxx", false)).0

two_chunks_make_the_file :
    (write_upload_chunk memory 3 second upload_dir chunk_target
      (some 2)
      (some (codes "bytes 3-4/5"))
      (codes "lo")
      ([], false)).0
    ≡ record { files = (codes "up" ∷ codes "a.txt" ∷ [], codes "hello") ∷ []; sessions = [] }
unfolding printer
two_chunks_make_the_file = refl

name_of_the_file : upload_name plain chunk_target ≡ ok (codes "a.txt")
unfolding printer
name_of_the_file = refl

upload_name-IsPlain_example : IsPlain (codes "a.txt")
upload_name-IsPlain_example =
    upload_name-IsPlain plain chunk_target (codes "a.txt") name_of_the_file

abbrev session : UploadSession
session = record {
  name = codes "a.txt";
  total = 5;
  offset = 3;
  temp_path = temp;
  last_activity = 2;
}

abbrev halfway : Uploads Files
halfway = record { files = (temp, codes "hel") ∷ []; sessions = (codes "0f", session) ∷ [] }

two_bytes : expected_length 3 4 5 ≡ some 2
unfolding printer
two_bytes = refl

accept_chunk-effect_example :
    Effect memory content memory-IsLawful upload_dir
      (codes "0f")
      (codes "a.txt")
      5
      (received 2 (codes "hel") (codes "lo") ([], false))
      (accept_chunk memory 3 halfway upload_dir (codes "0f") 3 4 5 2 (codes "lo") ([], false))
accept_chunk-effect_example =
    accept_chunk-effect memory content memory-IsLawful 3 halfway upload_dir (codes "0f") 3 4 5 2
      (codes "hel") (codes "lo") ([], false) session two_bytes (omega arith) (omega arith) refl refl
      refl refl refl
