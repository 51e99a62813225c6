-- ===== src/Web/Directory.antt =====
-- The pages of directories and the answers to requests for files in src/web/directory.rs. The file
-- system is a record of its calls. The printing of sizes, which goes through floating-point
-- numbers, and the constant markup of a page are parameters.
pub mod Inside
use ii.Prelude.{
  ℕ, Bool, true, false, ◌||◌, ◌&&◌, not, Option, none, some, List, [], ◌∷◌, ◌++◌, if◌then◌else◌,
  ltb, ◌==◌, or_else, is_some_and, length,
}
use ii.Prelude.Text.{Str, Bytes, codes, str_eq, eq_ignore_ascii_case}
use ii.Http.Request.{WebRange, absent, ranged, invalid}
use ii.Http.Response.{Response, write_web_error}
use ii.Http.Escape.{html_escape}
use ii.Dav.Path.{FilePath, starts_with}
use ii.Dav.Locking.{web_root_path}
use ii.Web.Range.{FileAnswer, write_web_file}
use ii.Web.Target.{web_directory_href, web_directory_target}

pub record Metadata : Type 0 where
  pub is_dir : Bool
  pub is_file : Bool
  pub len : ℕ
  -- The time of the last change, as the page prints it.
  pub modified : Option Str

-- An entry of a directory; its name may be no text.
pub record DirEntry : Type 0 where
  pub file_name : Option Str
  pub path : FilePath

pub record WebFiles : Type 0 where
  pub canonicalize : FilePath → Option FilePath
  pub metadata : FilePath → Option Metadata
  pub read_dir : FilePath → Option (List DirEntry)
  pub open_file : FilePath → Option Bytes

pub record WebDirectoryEntry : Type 0 where
  pub name : Str
  pub is_dir : Bool
  pub modified : Str
  pub size : Str

-- `Path::extension` of a file name: what is behind the last dot, unless this is the first character
-- or there is none.
behind_dot : Str → Option Str
behind_dot [] = none
behind_dot (c ∷ name) = elim (behind_dot name) [
  | some extension ↦ some extension
  | none ↦ if c == b'.' then some name else none
]

unfoldable pub extension : Str → Option Str
unfolding behind_dot
extension [] = none
extension (c ∷ name) = if str_eq (c ∷ name) (codes "..") then none else behind_dot name

content_types : List (Str × Str)
content_types =
    (codes "mp4", codes "video/mp4")
    ∷ (codes "m4v", codes "video/mp4")
    ∷ (codes "mov", codes "video/quicktime")
    ∷ (codes "webm", codes "video/webm")
    ∷ (codes "ogv", codes "video/ogg")
    ∷ (codes "ogg", codes "audio/ogg")
    ∷ (codes "mp3", codes "audio/mpeg")
    ∷ (codes "m4a", codes "audio/mp4")
    ∷ (codes "aac", codes "audio/aac")
    ∷ (codes "wav", codes "audio/wav")
    ∷ (codes "opus", codes "audio/opus")
    ∷ (codes "pdf", codes "application/pdf")
    ∷ (codes "png", codes "image/png")
    ∷ (codes "jpg", codes "image/jpeg")
    ∷ (codes "jpeg", codes "image/jpeg")
    ∷ (codes "gif", codes "image/gif")
    ∷ (codes "webp", codes "image/webp")
    ∷ (codes "svg", codes "image/svg+xml")
    ∷ (codes "avif", codes "image/avif")
    ∷ []

content_type_of : Str → List (Str × Str) → Str
content_type_of extension [] = codes "application/octet-stream"
content_type_of extension ((known, content_type) ∷ types) =
    if eq_ignore_ascii_case extension known then content_type else content_type_of extension types

unfoldable pub web_file_content_type : FilePath → Str
unfolding content_types content_type_of extension
web_file_content_type [] = codes "application/octet-stream"
web_file_content_type (name ∷ []) = content_type_of (or_else (extension name) []) content_types
web_file_content_type (parent ∷ name ∷ path) = web_file_content_type (name ∷ path)

-- `cmp` of two texts, as a test for "not after".
not_after : Str → Str → Bool
not_after [] t = true
not_after (a ∷ s) [] = false
not_after (a ∷ s) (b ∷ t) = ltb a b || (a == b && not_after s t)

place : WebDirectoryEntry → List WebDirectoryEntry → List WebDirectoryEntry
place e [] = e ∷ []
place e (f ∷ entries) = if not_after e.name f.name then e ∷ f ∷ entries else f ∷ place e entries

-- `sort_by` of the names.
unfoldable pub sort_entries : List WebDirectoryEntry → List WebDirectoryEntry
unfolding place not_after
sort_entries [] = []
sort_entries (e ∷ entries) = place e (sort_entries entries)

without_last : FilePath → FilePath
without_last [] = []
without_last (a ∷ []) = []
without_last (a ∷ b ∷ path) = a ∷ without_last (b ∷ path)

display_path : FilePath → Str
display_path [] = codes "/"
display_path (a ∷ path) = codes "/" ++ a ++ display_path path

module _ (fs : WebFiles) (fmt_bytes : ℕ → Str) where
  abbrev entry_of : Str → Metadata → WebDirectoryEntry
  entry_of name metadata = record {
    name = name;
    is_dir = metadata.is_dir;
    modified = or_else metadata.modified (codes "-");
    size = if metadata.is_dir then codes "-" else fmt_bytes metadata.len;
  }

  -- The loop over the entries: those with a name, inside the root, and with metadata.
  unfoldable pub listed : FilePath → List DirEntry → List WebDirectoryEntry
  listed root [] = []
  listed root (entry ∷ entries) =
      let rest = listed root entries in
      elim entry.file_name [
        | none ↦ rest
        | some name ↦ elim (fs.canonicalize entry.path) [
          | none ↦ rest
          | some target ↦
              if not (starts_with target root) then rest else elim (fs.metadata target) [
                | none ↦ rest
                | some metadata ↦ entry_of name metadata ∷ rest
              ]
        ]
      ]

  module _ (percent_encode : Str → Str) (percent_decode : Str → Option Str)
      (page_head html_controls : Str) where
    abbrev row : FilePath → WebDirectoryEntry → Str
    row segments entry =
        codes "<a href=\""
        ++ web_directory_href percent_encode (segments ++ entry.name ∷ []) entry.is_dir
        ++ codes "\">"
        ++ html_escape (entry.name ++ (if entry.is_dir then codes "/" else []))
        ++ codes "</a>  "
        ++ entry.modified
        ++ codes "  "
        ++ entry.size
        ++ codes "\n"

    rows : FilePath → List WebDirectoryEntry → Str
    rows segments [] = []
    rows segments (entry ∷ entries) = row segments entry ++ rows segments entries

    parent_row : FilePath → Str
    parent_row [] = []
    parent_row (a ∷ path) =
        codes "<a href=\""
        ++ web_directory_href percent_encode (without_last (a ∷ path)) true
        ++ codes "\">../</a>\n"

    unfoldable pub web_directory_page_body :
        FilePath → FilePath → Option Str → FilePath → Bool → Option Str
    unfolding rows parent_row without_last display_path
    web_directory_page_body root directory web_token segments upload_enabled =
        elim (fs.read_dir directory) [
          | none ↦ none
          | some entries ↦
              let title = html_escape (codes "Index of " ++ display_path segments) in
              some (
                page_head
                ++ html_escape (web_root_path web_token)
                ++ codes "\"><title>"
                ++ title
                ++ codes "</title></head><body><h1>"
                ++ title
                ++ codes "</h1>"
                ++ (if upload_enabled then html_controls else [])
                ++ codes
                    "<hr><pre>Name                             Last modified       Size\n----------------------------------------------------------------\n"
                ++ parent_row segments
                ++ rows segments (sort_entries (listed root entries))
                ++ codes "</pre><hr></body></html>")
        ]

-- What is written to the stream.
pub data DirectoryAnswer : Type 0 where
  failed : Response → DirectoryAnswer
  redirect : Str → DirectoryAnswer
  page : FileAnswer → DirectoryAnswer
  file : FileAnswer → DirectoryAnswer

abbrev not_found : DirectoryAnswer
not_found = failed (write_web_error (codes "404 Not Found") (codes "not found"))

-- `write_web_response_for_method` of a page: to HEAD, its length only.
page_answer : Bool → Str → FileAnswer
page_answer head body = record {
  status = codes "200 OK";
  content_type = codes "text/html; charset=utf-8";
  headers = [];
  content_length = length body;
  body = if head then [] else body;
}

module _ (fs : WebFiles) (fmt_bytes : ℕ → Str) (percent_encode : Str → Str)
    (percent_decode : Str → Option Str) (page_head html_controls : Str) where
  -- The end of `write_directory`: a path that is no directory.
  unfoldable pub file_answer : FilePath → Bool → Metadata → WebRange → Bool → DirectoryAnswer
  file_answer target trailing_slash metadata range head =
      if trailing_slash then not_found else elim (fs.open_file target) [
        | none ↦ not_found
        | some content ↦
            file (write_web_file (web_file_content_type target) content metadata.len range head)
      ]

  unfoldable pub write_directory :
      FilePath → Option Str → Str → Str → WebRange → Bool → Bool → DirectoryAnswer
  unfolding file_answer page_answer
  write_directory root web_token path request_target range head upload_enabled =
      elim (web_directory_target percent_decode fs.canonicalize root path) [
        | none ↦ not_found
        | some (target, segments, trailing_slash) ↦ elim (fs.metadata target) [
          | none ↦ not_found
          | some metadata ↦
              if not metadata.is_dir
              then file_answer target trailing_slash metadata range head
              else if not (str_eq path []) && not trailing_slash
              then redirect (request_target ++ codes "/")
              else elim (web_directory_page_body fs fmt_bytes percent_encode percent_decode
                  page_head html_controls root target web_token segments upload_enabled) [
                    | none ↦ not_found
                    | some body ↦ page (page_answer head body)
                  ]
        ]
      ]

  unfoldable pub is_full_file_get : FilePath → Str → WebRange → Bool
  is_full_file_get root path (ranged value) = false
  is_full_file_get root path invalid = false
  is_full_file_get root path absent =
      elim (web_directory_target percent_decode fs.canonicalize root path) [
        | none ↦ false
        | some (target, segments, trailing_slash) ↦
            not trailing_slash && is_some_and (fs.metadata target) (λ metadata. metadata.is_file)
      ]
