-- ===== src/Upload/Sessions.antt =====
-- The upload sessions of src/web/upload.rs and the handlers that change them. The file system is a
-- parameter, as are percent decoding, the identifiers that the random generator gives, and the
-- bytes that come over the connection.
use ii.Prelude.{
  ℕ, ◌-◌, ◌*◌, Bool, Option, none, some, List, [], ◌∷◌, ◌++◌, if◌then◌else◌, leb, Result, ok, err,
}
use ii.Prelude.Text.{Str, Bytes, codes, str_eq}
use ii.Prelude.Number.{to_string}
use ii.Http.Response.{Response, plain_text, write_web_error}
use ii.Dav.Path.{FilePath}
use ii.Upload.Query.{upload_name, parse_size, parse_session_id}

pub record UploadSession : Type 0 where
  pub name : Str
  pub total : ℕ
  pub offset : ℕ
  pub temp_path : FilePath
  pub last_activity : ℕ

abbrev pub UploadSessions : Type 0
UploadSessions = List (Str × UploadSession)

-- The calls of the file system; a failing one gives the text of its error where the code prints it.
-- `keep` tells of an error of making the temporary file permanent.
pub record UploadFiles (S : Type 0) : Type 0 where
  -- What `Path::display` prints.
  pub display : FilePath → Str
  pub create_dir_all : S → FilePath → S × Option Str
  pub new_temp_in : S → FilePath → S × Result FilePath Str
  pub keep : S → FilePath → S × Option Str
  pub can_open : S → FilePath → Bool
  pub append : S → FilePath → Bytes → S × Bool
  pub flush : S → FilePath → S × Bool
  pub remove_file : S → FilePath → S
  pub rename : S → FilePath → FilePath → S × Option Str

-- The hash map.
abbrev pub get : Str → UploadSessions → Option UploadSession
get id [] = none
get id ((i, session) ∷ sessions) = if str_eq i id then some session else get id sessions

abbrev pub remove : Str → UploadSessions → UploadSessions
remove id [] = []
remove id ((i, session) ∷ sessions) =
    let rest = remove id sessions in if str_eq i id then rest else (i, session) ∷ rest

abbrev pub insert : Str → UploadSession → UploadSessions → UploadSessions
insert id session sessions = (id, session) ∷ remove id sessions

pub record Uploads (S : Type 0) : Type 0 where
  pub files : S
  pub sessions : UploadSessions

-- `none` is an error that drops the connection.
abbrev pub Reply : Type 0 → Type 0
Reply S = Uploads S × Option Response

abbrev pub session_ttl : ℕ
session_ttl = 3600 * 1_000_000_000

abbrev pub bad_request : Str → Option Response
bad_request message = some (write_web_error (codes "400 Bad Request") message)

abbrev pub server_error : Str → Option Response
server_error message = some (write_web_error (codes "500 Internal Server Error") message)

abbrev pub not_found : Option Response
not_found = some (write_web_error (codes "404 Not Found") (codes "upload session not found"))

abbrev pub with_headers : Str → Str → Bytes → Option Response
with_headers status headers body =
    some (record { status = status; content_type = plain_text; headers = headers; body = body })

abbrev pub offset_header : ℕ → Str
offset_header offset = codes "Upload-Offset: " ++ to_string offset ++ codes "\r\n"

-- What `cleanup_expired` leaves in the table.
unfoldable pub unexpired : ℕ → UploadSessions → UploadSessions
unexpired now [] = []
unexpired now ((id, session) ∷ sessions) =
    let rest = unexpired now sessions in
    if leb session_ttl (now - session.last_activity) then rest else (id, session) ∷ rest

module _ {S : Type 0} (fs : UploadFiles S) where
  unfoldable pub remove_expired : ℕ → S → UploadSessions → S
  remove_expired now files [] = files
  remove_expired now files ((id, session) ∷ sessions) =
      if leb session_ttl (now - session.last_activity)
      then remove_expired now (fs.remove_file files session.temp_path) sessions
      else remove_expired now files sessions

  unfoldable pub cleanup_expired : ℕ → Uploads S → Uploads S
  cleanup_expired now u = record {
    files = remove_expired now u.files u.sessions;
    sessions = unexpired now u.sessions;
  }

  remove_all : S → UploadSessions → S
  remove_all files [] = files
  remove_all files ((id, session) ∷ sessions) =
      remove_all (fs.remove_file files session.temp_path) sessions

  unfoldable pub cleanup_all : Uploads S → Uploads S
  unfolding remove_all
  cleanup_all u = record { files = remove_all u.files u.sessions; sessions = [] }

  -- `create_session` behind its two parsers: the file and the entry of the table.
  unfoldable pub open_session : ℕ → Uploads S → FilePath → Str → Str → ℕ → Reply S
  open_session now u upload_dir id file_name total =
      let (files1, made) = fs.create_dir_all u.files upload_dir in
      let (files2, temp) = fs.new_temp_in files1 upload_dir in
      elim made [
        | some e ↦ (
          record u { files = files1 },
          server_error
              (codes "create upload directory " ++ fs.display upload_dir ++ codes ": " ++ e),
        )
        | none ↦ elim temp [
          | err e ↦ (record u { files = files2 }, server_error (codes "create upload file: " ++ e))
          | ok temp_path ↦
              let (files3, kept) = fs.keep files2 temp_path in
              let session : UploadSession = record {
                name = file_name;
                total = total;
                offset = 0;
                temp_path = temp_path;
                last_activity = now;
              } in
              elim kept [
                | some e ↦ (
                  record u { files = files3 },
                  server_error (codes "keep upload temp file: " ++ e),
                )
                | none ↦ (
                  record { files = files3; sessions = insert id session u.sessions },
                  with_headers (codes "201 Created")
                      (codes "Upload-Id: " ++ id ++ codes "\r\nUpload-Offset: 0\r\n") id,
                )
              ]
        ]
      ]

  unfoldable pub create_session :
      (Str → Option Str) → ℕ → Uploads S → FilePath → Str → Str → Reply S
  create_session percent_decode now uploads upload_dir target id =
      let u = cleanup_expired now uploads in
      elim (upload_name percent_decode target) [
        | err e ↦ (u, bad_request (codes "invalid upload name: " ++ e))
        | ok file_name ↦ elim (parse_size target) [
          | err e ↦ (u, bad_request (codes "invalid upload size: " ++ e))
          | ok total ↦ open_session now u upload_dir id file_name total
        ]
      ]

  unfoldable pub session_head : ℕ → Uploads S → Str → Reply S
  session_head now uploads target =
      let u = cleanup_expired now uploads in
      elim (parse_session_id target) [
        | err e ↦ (u, bad_request (codes "invalid upload session: " ++ e))
        | ok id ↦ elim (get id u.sessions) [
          | none ↦ (u, not_found)
          | some session ↦ (
            u,
            with_headers (codes "200 OK")
                (offset_header session.offset
                  ++ codes "Upload-Length: "
                  ++ to_string session.total
                  ++ codes "\r\n")
                [],
          )
        ]
      ]
