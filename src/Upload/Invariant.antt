-- ===== src/Upload/Invariant.antt =====
-- The table of upload sessions of src/web/upload.rs through any sequence of requests.
use ii.Prelude.{ℕ, ◌<◌, ◌≡◌, ◌⊎◌, Option, [], ◌∷◌}
use ii.Prelude.Text.{Str, Bytes}
use ii.Dav.Path.{FilePath}
use ii.Upload.Sessions.{
  UploadSession, UploadSessions, UploadFiles, Uploads, cleanup_all, create_session, session_head,
}
use ii.Upload.Chunks.{Incoming, write_upload_chunk}

-- What is stored of a session is less than the whole file, or the file is empty.
abbrev Open : UploadSession → Type 0
Open session = (session.offset < session.total) ⊎ ((session.total ≡ 0) × (session.offset ≡ 0))

abbrev pub AllOpen : UploadSessions → Type 0
AllOpen [] = Unit
AllOpen ((id, session) ∷ sessions) = Open session × AllOpen sessions

module _ {S : Type 0} (fs : UploadFiles S) where
  -- The states that the requests of the browsers lead to from a server without sessions.
  pub data Reachable (percent_decode : Str → Option Str) : Uploads S → Type 0 where
    start : (files : S) → Reachable percent_decode (record { files = files; sessions = [] })
    created :
        (now : ℕ) (u : Uploads S) (upload_dir : FilePath) (target id : Str)
        → Reachable percent_decode u
        → Reachable percent_decode (create_session fs percent_decode now u upload_dir target id).0
    asked :
        (now : ℕ) (u : Uploads S) (target : Str)
        → Reachable percent_decode u
        → Reachable percent_decode (session_head fs now u target).0
    sent :
        (now : ℕ) (u : Uploads S) (upload_dir : FilePath) (target : Str) (length_header : Option ℕ)
        (range_header : Option Str) (initial : Bytes) (incoming : Incoming)
        → Reachable percent_decode u
        → Reachable percent_decode
            (write_upload_chunk fs now u upload_dir target length_header range_header initial
              incoming).0
    ended :
        (u : Uploads S) → Reachable percent_decode u → Reachable percent_decode (cleanup_all fs u)
