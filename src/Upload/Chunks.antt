-- ===== src/Upload/Chunks.antt =====
-- The chunks of an upload: `write_upload_chunk` of src/web/upload.rs.
use ii.Prelude.{
  ℕ, ◌+◌, ◌-◌, Bool, true, false, not, ◌&&◌, ◌||◌, Option, none, some, [], ◌∷◌, ◌++◌, if◌then◌else◌,
  length, take, leb, ltb, ◌==◌, Result, ok, err, and_then,
}
use ii.Prelude.Text.{Str, Bytes, codes}
use ii.Prelude.Number.{max_u64, to_string}
use ii.Http.Response.{write_web_error}
use ii.Dav.Path.{FilePath}
use ii.Upload.Query.{parse_session_id, parse_content_range}
use ii.Upload.Sessions.{
  UploadSession, UploadFiles, get, remove, insert, Uploads, Reply, bad_request, server_error,
  not_found, with_headers, offset_header, cleanup_expired,
}

-- `checked_sub` and `checked_add`.
unfoldable pub checked_sub : ℕ → ℕ → Option ℕ
checked_sub a b = if leb b a then some (a - b) else none

unfoldable pub checked_add : ℕ → ℕ → Option ℕ
checked_add a b = if leb (a + b) max_u64 then some (a + b) else none

-- The length that the range asks for, if it lies in the file.
unfoldable pub expected_length : ℕ → ℕ → ℕ → Option ℕ
unfolding checked_sub checked_add
expected_length start end total =
    and_then (and_then (checked_sub end start) λ length. checked_add length 1)
      λ length. if ltb 0 total && ltb end total then some length else none

-- The bytes that come over the connection behind those that are read, and whether it breaks
-- behind them with an error.
abbrev pub Incoming : Type 0
Incoming = Bytes × Bool

module _ {S : Type 0} (fs : UploadFiles S) where
  -- The block that writes the body: whether all of it came, or an error.
  unfoldable pub write_body : S → FilePath → ℕ → Bytes → Incoming → S × Result Bool Str
  write_body files path content_length initial (bytes, broken) =
      let remaining = content_length - length initial in
      let (files1, first) = fs.append files path initial in
      let (files2, second) = fs.append files1 path (take remaining bytes) in
      let (files3, flushed) = fs.flush files2 path in
      if not (fs.can_open files path)
      then (files, err (codes "open upload temp file"))
      else if not first
      then (files1, err (codes "write upload body"))
      else if not second
      then (files2, err (codes "write upload body"))
      else if ltb (length bytes) remaining
      then (files2, if broken then err (codes "write upload body") else ok false)
      else if not flushed
      then (files3, err (codes "flush upload file"))
      else (files3, ok true)

  -- What follows the block: `session` has left the table.
  unfoldable pub finish_chunk :
      ℕ → Uploads S → FilePath → Str → UploadSession → ℕ → S × Result Bool Str → Reply S
  finish_chunk now u upload_dir id session end (files, err e) = (
    record u { files = fs.remove_file files session.temp_path },
    server_error (codes "write upload file: " ++ e),
  )
  finish_chunk now u upload_dir id session end (files, ok false) = (
    record u { files = fs.remove_file files session.temp_path },
    bad_request (codes "upload body ended early"),
  )
  finish_chunk now u upload_dir id session end (files, ok true) = elim (checked_add end 1) [
    | none ↦ (record u { files = files }, none)
    | some offset ↦
        let (files1, failed) =
          fs.rename files session.temp_path (upload_dir ++ session.name ∷ []) in
        if ltb offset session.total
        then (
          record {
            files = files;
            sessions =
                insert id (record session { offset = offset; last_activity = now }) u.sessions;
          },
          with_headers (codes "204 No Content") (offset_header offset) [],
        )
        else elim failed [
          | some e ↦ (
            record u { files = fs.remove_file files1 session.temp_path },
            server_error (codes "replace upload file: " ++ e),
          )
          | none ↦ (
            record u { files = files1 },
            with_headers (codes "201 Created") (offset_header offset)
                (codes "saved: " ++ session.name),
          )
        ]
  ]

  -- A chunk whose range and length are right, for the session `id`.
  unfoldable pub accept_chunk :
      ℕ → Uploads S → FilePath → Str → ℕ → ℕ → ℕ → ℕ → Bytes → Incoming → Reply S
  accept_chunk now u upload_dir id start end total content_length initial incoming =
      elim (get id u.sessions) [
        | none ↦ (u, not_found)
        | some session ↦
            if not (session.total == total) || not (session.offset == start)
            then (
              record u { sessions = insert id session u.sessions },
              some (
                  write_web_error (codes "409 Conflict")
                    (codes "upload offset is " ++ to_string session.offset)),
            )
            else finish_chunk now (record u { sessions = remove id u.sessions }) upload_dir id
                session end (write_body u.files session.temp_path content_length initial incoming)
      ]

  unfoldable pub write_upload_chunk :
      ℕ → Uploads S → FilePath → Str → Option ℕ → Option Str → Bytes → Incoming → Reply S
  write_upload_chunk now uploads upload_dir target length_header range_header initial incoming =
      let u = cleanup_expired fs now uploads in
      elim (parse_session_id target) [
        | err e ↦ (u, bad_request (codes "invalid upload session: " ++ e))
        | ok id ↦ elim length_header [
          | none ↦ (
            u,
            some (
                write_web_error (codes "411 Length Required") (codes "Content-Length is required")),
          )
          | some content_length ↦ elim range_header [
            | none ↦ (u, bad_request (codes "Content-Range is required"))
            | some content_range ↦ elim (parse_content_range content_range) [
              | err e ↦ (u, bad_request e)
              | ok (start, end, total) ↦ elim (expected_length start end total) [
                | none ↦ (u, bad_request (codes "Content-Range is invalid"))
                | some expected ↦
                    if not (content_length == expected) || ltb content_length (length initial)
                    then (u, bad_request (codes "upload body length does not match Content-Range"))
                    else accept_chunk now u upload_dir id start end total content_length initial
                        incoming
              ]
            ]
          ]
        ]
      ]
