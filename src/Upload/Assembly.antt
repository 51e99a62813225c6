-- ===== src/Upload/Assembly.antt =====
-- The chunks of an upload to src/web/upload.rs make up the file, given a file system that keeps what
-- it is told to keep.
use ii.Prelude.{
  ℕ, ◌+◌, ◌-◌, ◌<◌, ◌≤◌, ◌≡◌, ◌∙◌, refl, sym, subst, Bool, true, false, not, ◌||◌, Option, none,
  some, [], ◌∷◌, ◌++◌, ltb, ◌==◌, length, length-append, take, length-take, Result, ok, err, arith,
  Bool-cases, Option-cases, inl, inr,
}
use ii.Prelude.Text.{Str, Bytes, str_eq_refl}
use ii.Prelude.Number.{max_u64}
use ii.Http.Response.{Response, write_web_error}
use ii.Dav.Path.{FilePath}
use ii.Upload.Sessions.{
  UploadSession, UploadSessions, UploadFiles, Uploads, Reply, get, remove, insert,
}
use ii.Upload.Chunks.{
  Incoming, checked_add, checked_sub, expected_length, write_body, finish_chunk, accept_chunk,
}

-- What the code relies on of the file system. `content` is what a file holds, if it is there.
pub record IsLawful {S : Type 0} (fs : UploadFiles S) (content : S → FilePath → Option Bytes)
    : Type 0 where
  -- Appending without an error appends.
  pub append_law :
      (files : S) (path : FilePath) (old bytes : Bytes)
      → content files path ≡ some old
      → (fs.append files path bytes).1 ≡ true
      → content (fs.append files path bytes).0 path ≡ some (old ++ bytes)
  -- Flushing keeps what is there.
  pub flush_law :
      (files : S) (path : FilePath) → content (fs.flush files path).0 path ≡ content files path
  -- A renaming without an error replaces the file of the new path.
  pub rename_law :
      (files : S) (from to : FilePath) (bytes : Bytes)
      → content files from ≡ some bytes
      → (fs.rename files from to).1 ≡ none
      → content (fs.rename files from to).0 to ≡ some bytes

expected_length-some :
    (start end total n : ℕ)
    → expected_length start end total ≡ some n
    → (start + n ≡ end + 1) × (end < total)
unfolding expected_length checked_sub checked_add
expected_length-some start end total n h = ground arith

-- The bytes of the file when a chunk of `n` bytes is in.
abbrev pub received : ℕ → Bytes → Bytes → Incoming → Bytes
received n old initial incoming = old ++ initial ++ take (n - length initial) incoming.0

length-received :
    (n : ℕ) (old initial : Bytes) (incoming : Incoming)
    → length initial ≤ n
    → n - length initial ≤ length incoming.0
    → length (received n old initial incoming) ≡ length old + n
length-received n old initial incoming h k =
    length-append (old ++ initial) (take (n - length initial) incoming.0)
    ∙ omega (arith, length-append old initial, length-take (n - length initial) incoming.0 k)

get-remove_self : (id : Str) (sessions : UploadSessions) → get id (remove id sessions) ≡ none
get-remove_self id [] = refl
get-remove_self id ((i, session) ∷ sessions) = ground (arith, get-remove_self id sessions)

get-insert_self :
    (id : Str) (session : UploadSession) (sessions : UploadSessions)
    → get id (insert id session sessions) ≡ some session
get-insert_self id session sessions = rw (str_eq_refl id) refl

module _ {S : Type 0} (fs : UploadFiles S) (content : S → FilePath → Option Bytes)
    (lawful : IsLawful fs content) where
  -- What is written if all of a body comes.
  write_body-content :
      (files : S) (path : FilePath) (n : ℕ) (old initial : Bytes) (incoming : Incoming)
      → content files path ≡ some old
      → length initial ≤ n
      → (write_body fs files path n initial incoming).1 ≡ ok true
      → (content (write_body fs files path n initial incoming).0 path
          ≡ some (old ++ initial ++ take (n - length initial) incoming.0))
        × (n - length initial ≤ length incoming.0)
  unfolding write_body
  write_body-content files path n old initial (bytes, broken) h le e =
      let more = take (n - length initial) bytes in
      let files1 = (fs.append files path initial).0 in
      let files2 = (fs.append files1 path more).0 in
      elim (Bool-cases (fs.can_open files path)) [
        | inr a ↦ absurd (let e' = rw (a, write_body) at e in ground arith)
        | inl a ↦ elim (Bool-cases (fs.append files path initial).1) [
          | inr b ↦ absurd (let e' = rw (a, b, write_body) at e in ground arith)
          | inl b ↦ elim (Bool-cases (fs.append files1 path more).1) [
            | inr c ↦ absurd (let e' = rw (a, b, c, write_body) at e in ground arith)
            | inl c ↦ elim (Bool-cases (ltb (length bytes) (n - length initial))) [
              | inl d ↦ elim (Bool-cases broken) [
                | inl k ↦ absurd (let e' = rw (a, b, c, d, k, write_body) at e in ground arith)
                | inr k ↦ absurd (let e' = rw (a, b, c, d, k, write_body) at e in ground arith)
              ]
              | inr d ↦ elim (Bool-cases (fs.flush files2 path).1) [
                | inr k ↦ absurd (let e' = rw (a, b, c, d, k, write_body) at e in ground arith)
                | inl k ↦
                    rw (a, b, c, d, k, write_body)
                      (
                        lawful.flush_law files2 path
                            ∙ (lawful.append_law files1 path (old ++ initial) more
                                (lawful.append_law files path old initial h b) c),
                        ground arith,
                      )
              ]
            ]
          ]
        ]
      ]

  -- What a chunk has done: the session goes on with the bytes that it has, or the file is complete
  -- and in place, or the session has ended with an error.
  pub data Effect (upload_dir : FilePath) (id file_name : Str) (total : ℕ) (bytes : Bytes)
      : Reply S → Type 0 where
    goes_on :
        (u : Uploads S) (answer : Option Response) (session : UploadSession)
        → get id u.sessions ≡ some session
        → session.offset ≡ length bytes
        → session.offset < total
        → content u.files session.temp_path ≡ some bytes
        → Effect upload_dir id file_name total bytes (u, answer)
    complete :
        (u : Uploads S) (answer : Option Response)
        → get id u.sessions ≡ none
        → length bytes ≡ total
        → content u.files (upload_dir ++ file_name ∷ []) ≡ some bytes
        → Effect upload_dir id file_name total bytes (u, answer)
    ended :
        (u : Uploads S) (status message : Str)
        → get id u.sessions ≡ none
        → Effect upload_dir id file_name total bytes (u, some (write_web_error status message))

  finish_chunk-effect :
      (now : ℕ) (u : Uploads S) (upload_dir : FilePath) (id : Str) (session : UploadSession)
      (end : ℕ) (bytes : Bytes) (written : S × Result Bool Str)
      → get id u.sessions ≡ none
      → end < session.total
      → session.total ≤ max_u64
      → (written.1 ≡ ok true
          → (content written.0 session.temp_path ≡ some bytes) × (length bytes ≡ end + 1))
      → Effect upload_dir id session.name session.total bytes
          (finish_chunk fs now u upload_dir id session end written)
  unfolding finish_chunk
  finish_chunk-effect now u upload_dir id session end bytes (files, err e) gone below fits w =
      ended _ _ _ gone
  finish_chunk-effect now u upload_dir id session end bytes (files, ok false) gone below fits w =
      ended _ _ _ gone
  finish_chunk-effect now u upload_dir id session end bytes (files, ok true) gone below fits w =
      let (stored, size) = w refl in
      let target = upload_dir ++ session.name ∷ [] in
      let next : checked_add end 1 ≡ some (end + 1) = unfold checked_add in ground arith in
      elim (Bool-cases (ltb (end + 1) session.total)) [
        | inl e ↦
            rw (next, e, finish_chunk)
              (goes_on _ _ (record session { offset = end + 1; last_activity = now })
                (get-insert_self id _ u.sessions) (sym size) (ground arith) stored)
        | inr e ↦ elim (Option-cases (fs.rename files session.temp_path target).1) [
          | inl f ↦
              rw (next, e, f, finish_chunk)
                (complete _ _ gone (ground arith)
                  (lawful.rename_law files session.temp_path target bytes stored f))
          | inr (message, f) ↦ rw (next, e, f, finish_chunk) (ended _ _ _ gone)
        ]
      ]

  -- A chunk for a session of the table, whose range starts where the session stands and lies in the
  -- file, and whose first bytes are no more than it is long. If the temporary file holds as many
  -- bytes as the session says, then either the session goes on, with the bytes of the chunk behind
  -- those of the file and an offset that is their number, or these bytes are the whole file and
  -- stand at its place, or the session has left the table and the answer is an error.
  pub accept_chunk-effect :
      (now : ℕ) (u : Uploads S) (upload_dir : FilePath) (id : Str) (start end total n : ℕ)
      (old initial : Bytes) (incoming : Incoming) (session : UploadSession)
      → expected_length start end total ≡ some n
      → length initial ≤ n
      → total ≤ max_u64
      → get id u.sessions ≡ some session
      → session.total ≡ total
      → session.offset ≡ start
      → content u.files session.temp_path ≡ some old
      → length old ≡ start
      → Effect upload_dir id session.name total
          (received n old initial incoming)
          (accept_chunk fs now u upload_dir id start end total n initial incoming)
  unfolding accept_chunk
  accept_chunk-effect now u upload_dir id start end total n old initial incoming session range le
        fits found same_total same_start stored size =
      let same : (not (session.total == total) || not (session.offset == start)) ≡ false =
        ground arith in
      let (sum, below) = expected_length-some start end total n range in
      let written = write_body fs u.files session.temp_path n initial incoming in
      let effect =
        finish_chunk-effect now (record u { sessions = remove id u.sessions }) upload_dir id session
          end (received n old initial incoming) written (get-remove_self id u.sessions)
          (omega arith) (omega arith)
          (λ e.
            let (stored2, all_came) =
              write_body-content u.files session.temp_path n old initial incoming stored le e in
            (stored2, omega (arith, length-received n old initial incoming le all_came))) in
      rw (found, same, accept_chunk)
        (subst
          (λ t. Effect upload_dir id session.name t (received n old initial incoming) (
            finish_chunk fs now (record u { sessions = remove id u.sessions }) upload_dir id session
              end written))
          same_total effect)
