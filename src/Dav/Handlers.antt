-- ===== src/Dav/Handlers.antt =====
-- The handlers of src/web/dav.rs that change the file system or the lock table. The file system is
-- the record `FileSystem` over an abstract state; what the other libraries do (percent encoding,
-- URL parsing, random tokens) and the body of a PUT request are arguments.
pub mod Guarded
use ii.Prelude.{
  ℕ, ◌+◌, ◌<◌, ◌≡◌, Bool, true, false, not, ◌&&◌, ◌||◌, Option, none, some, List, [], ◌∷◌, ◌++◌,
  is_some, is_some_and, if◌then◌else◌, and_then, ltb, leb, Result, ok, err,
}
use ii.Prelude.Text.{Str, Bytes, codes, str_eq, eq_ignore_ascii_case, strip_prefix}
use ii.Prelude.Number.{parse_uint, max_u64, to_string}
use ii.Http.Request.{WebRequest, header, web_token_path}
use ii.Http.Response.{Response, write_web_response, write_web_error, plain_text}
use ii.Dav.Path.{
  FilePath, starts_with, parent, dav_relative_path, existing_target, writable_target,
  existing_or_writable_target,
}
use ii.Dav.Locks.{LockState, lock_permits, acquire, release, move_locks, strip_lock_token}

-- What `create_dir` reports.
pub data Created : Type 0 where
  done already_exists failed : Created

-- The calls of the file system. A call that changes it gives the new state also where it fails;
-- `write` gives the text of its error, and `copy_path` copies a file or a whole directory.
pub record FileSystem (S : Type 0) : Type 0 where
  pub canonicalize : S → FilePath → Option FilePath
  pub is_dir : S → FilePath → Option Bool
  pub read_dir : S → FilePath → Option (List FilePath)
  pub create_dir : S → FilePath → S × Created
  pub remove_dir_all : S → FilePath → S × Bool
  pub remove_file : S → FilePath → S × Bool
  pub rename : S → FilePath → FilePath → S × Bool
  pub copy_path : S → FilePath → FilePath → S × Bool
  pub new_temp_in : S → FilePath → S × Option FilePath
  pub write : S → FilePath → Bytes → S × Option Str

pub record World (S : Type 0) : Type 0 where
  pub files : S
  pub locks : LockState

-- The state after a handler and its response; `none` is an error that drops the connection.
abbrev pub Outcome : Type 0 → Type 0
Outcome S = World S × Option Response

abbrev pub created_201 : Response
created_201 = write_web_response (codes "201 Created") plain_text []

abbrev pub no_content_204 : Response
no_content_204 = write_web_response (codes "204 No Content") plain_text []

abbrev pub locked_423 : Response
locked_423 = write_web_error (codes "423 Locked") (codes "resource is locked")

abbrev pub error : Str → Str → Response
error status message = write_web_error status message

abbrev text_of : Option Str → Str
text_of none = []
text_of (some text) = text

abbrev pub is_empty : FilePath → Bool
is_empty [] = true
is_empty (a ∷ path) = false

module _ {S : Type 0} (fs : FileSystem S) where
  -- `put`, behind the permission of the locks. `received` is what `write_request_body` reads from
  -- the connection: the bytes of the body, or the text of its error.
  unfoldable pub put_permitted : S → LockState → FilePath → Result Bytes Str → Outcome S
  put_permitted files locks target received = elim (parent target) [
    | none ↦ (record { files = files; locks = locks }, none)
    | some directory ↦
        let (files1, temp) = fs.new_temp_in files directory in
        elim temp [
          | none ↦ (record { files = files1; locks = locks }, none)
          | some temp_path ↦ elim received [
            | err e ↦
                let (files2, _) = fs.remove_file files1 temp_path in
                (
                  record { files = files2; locks = locks },
                  some (error (codes "400 Bad Request") (codes "write DAV body: " ++ e)),
                )
            | ok bytes ↦
                let (files2, written) = fs.write files1 temp_path bytes in
                let (files3, _) = fs.remove_file files2 temp_path in
                let (files4, persisted) = fs.rename files2 temp_path target in
                let (files5, _) = fs.remove_file files4 temp_path in
                if is_some written
                then (
                  record { files = files3; locks = locks },
                  some (
                      error (codes "400 Bad Request")
                        (codes "write DAV body: " ++ text_of written)),
                )
                else if is_some_and (fs.is_dir files2 target) (λ d. d)
                then (
                  record { files = files3; locks = locks },
                  some (error (codes "409 Conflict") (codes "target is a directory")),
                )
                else (
                  record { files = if persisted then files4 else files5; locks = locks },
                  if persisted then some created_201 else none,
                )
          ]
        ]
  ]

  unfoldable pub put : ℕ → World S → FilePath → FilePath → WebRequest → Result Bytes Str → Outcome S
  put now world root relative request received =
      elim (writable_target (fs.canonicalize world.files) root relative) [
        | none ↦ (world, some (error (codes "409 Conflict") (codes "parent directory is missing")))
        | some target ↦
            let (locks, permitted) = lock_permits now world.locks target request in
            if not permitted
            then (record world { locks = locks }, some locked_423)
            else put_permitted world.files locks target received
      ]

  unfoldable pub mkcol : ℕ → World S → FilePath → FilePath → WebRequest → Outcome S
  mkcol now world root relative request =
      if is_empty relative
      then (world, some (error (codes "405 Method Not Allowed") (codes "cannot create root")))
      else if not (str_eq request.body []) || is_some_and request.content_length (ltb 0)
      then (
        world,
        some (error (codes "415 Unsupported Media Type") (codes "MKCOL body is unsupported")),
      )
      else elim (writable_target (fs.canonicalize world.files) root relative) [
        | none ↦ (world, some (error (codes "409 Conflict") (codes "parent directory is missing")))
        | some target ↦
            let (locks, permitted) = lock_permits now world.locks target request in
            let (files, created) = fs.create_dir world.files target in
            if not permitted
            then (record world { locks = locks }, some locked_423)
            else elim created [
              | done ↦ (record { files = files; locks = locks }, some created_201)
              | already_exists ↦ (
                record { files = files; locks = locks },
                some (error (codes "405 Method Not Allowed") (codes "resource already exists")),
              )
              | failed ↦ (record { files = files; locks = locks }, none)
            ]
      ]

  -- A file or a directory leaves the file system.
  unfoldable pub remove_target : S → FilePath → Bool → S × Bool
  remove_target files target directory =
      if directory then fs.remove_dir_all files target else fs.remove_file files target

  unfoldable pub delete : ℕ → World S → FilePath → FilePath → WebRequest → Outcome S
  delete now world root relative request =
      if is_empty relative
      then (world, some (error (codes "403 Forbidden") (codes "cannot delete root")))
      else elim (existing_target (fs.canonicalize world.files) root relative) [
        | none ↦ (world, some (error (codes "404 Not Found") (codes "not found")))
        | some target ↦
            let (locks, permitted) = lock_permits now world.locks target request in
            if not permitted
            then (record world { locks = locks }, some locked_423)
            else elim (fs.is_dir world.files target) [
              | none ↦ (record world { locks = locks }, none)
              | some directory ↦
                  let (files, removed) = remove_target world.files target directory in
                  (
                    record { files = files; locks = locks },
                    if removed then some no_content_204 else none,
                  )
            ]
      ]
