-- ===== src/Dav/Handlers/Guarded.antt =====
-- A lock of another client keeps PUT, MKCOL and DELETE of src/web/dav.rs from a resource.
use ii.Prelude.{ℕ, ◌≡◌, refl, false, none, some, [], Result}
use ii.Prelude.Text.{Str, Bytes}
use ii.Http.Request.{WebRequest}
use ii.Dav.Path.{FilePath, existing_target, writable_target}
use ii.Dav.Locks.{Lock, prune_locks}
use ii.Dav.Locks.Permits.{Blocks, lock_permits_iff, lock_permits_locks}
use ii.Dav.Handlers.{FileSystem, World, locked_423, is_empty, put, mkcol, delete}

module _ {S : Type 0} (fs : FileSystem S) where
  -- A PUT request is answered by 423, and no file changes, if a
  -- lock that has not expired, lies at, above or below its target, is not presented.
  pub put_blocked :
      (now : ℕ) (world : World S) (root relative : FilePath) (request : WebRequest)
      (received : Result Bytes Str) (target p : FilePath) (l : Lock)
      → writable_target (fs.canonicalize world.files) root relative ≡ some target
      → Blocks now target request world.locks p l
      → put fs now world root relative request received
        ≡ (record world { locks = prune_locks now world.locks }, some locked_423)
  unfolding put
  put_blocked now world root relative request received target p l e b =
      let refused = (lock_permits_iff now world.locks target request).1 (p, l, b) in
      rw (e, put) (rw (refused, lock_permits_locks) refl)

  -- A MKCOL request below the root that has no body is answered by 423, and no directory is
  -- created, if a lock that has not expired, lies at, above or below its target, is not presented.
  pub mkcol_blocked :
      (now : ℕ) (world : World S) (root relative : FilePath) (request : WebRequest)
      (target p : FilePath) (l : Lock)
      → is_empty relative ≡ false
      → request.body ≡ []
      → request.content_length ≡ none
      → writable_target (fs.canonicalize world.files) root relative ≡ some target
      → Blocks now target request world.locks p l
      → mkcol fs now world root relative request
        ≡ (record world { locks = prune_locks now world.locks }, some locked_423)
  unfolding mkcol
  mkcol_blocked now world root relative request target p l h body length e b =
      let refused = (lock_permits_iff now world.locks target request).1 (p, l, b) in
      rw (h, body, length, e, mkcol) (rw (refused, lock_permits_locks) refl)

  -- A DELETE request below the root is answered by 423, and no file changes, if a lock that has
  -- not expired, lies at, above or below its target, is not presented.
  pub delete_blocked :
      (now : ℕ) (world : World S) (root relative : FilePath) (request : WebRequest)
      (target p : FilePath) (l : Lock)
      → is_empty relative ≡ false
      → existing_target (fs.canonicalize world.files) root relative ≡ some target
      → Blocks now target request world.locks p l
      → delete fs now world root relative request
        ≡ (record world { locks = prune_locks now world.locks }, some locked_423)
  unfolding delete
  delete_blocked now world root relative request target p l h e b =
      let refused = (lock_permits_iff now world.locks target request).1 (p, l, b) in
      rw (h, e, delete) (rw (refused, lock_permits_locks) refl)
