-- ===== src/Dav/Transfer/Guarded.antt =====
-- A lock of another client keeps MOVE and COPY of src/web/dav.rs from a resource.
use ii.Prelude.{◌≡◌, ◌⊎◌, refl, Bool, Option, some, Bool-cases, inl, inr, ok}
use ii.Prelude.Text.{Str}
use ii.Http.Request.{WebRequest}
use ii.Dav.Path.{FilePath}
use ii.Dav.Locks.{Lock, lock_permits, prune_locks}
use ii.Dav.Locks.Permits.{Blocks, lock_permits_iff, lock_permits_locks}
use ii.Dav.Handlers.{FileSystem, World, Outcome, locked_423}
use ii.Dav.Transfer.{Instants, transfer_paths, move_or_copy}

-- The answer is 423 and no file changes.
abbrev pub IsRefused : {S : Type 0} → World S → Outcome S → Type 0
IsRefused world outcome = (outcome.0.files ≡ world.files) × (outcome.1 ≡ some locked_423)

module _ {S : Type 0} (fs : FileSystem S) (url_path percent_decode : Str → Option Str) where
  -- A MOVE or COPY request between two paths inside the root is answered by 423, and no file
  -- changes, if some lock that has not expired is not presented by the request and lies at, above
  -- or below the source, or the destination.
  pub move_blocked :
      (t : Instants) (world : World S) (root relative : FilePath) (token : Option Str)
      (request : WebRequest) (move_file : Bool) (source destination p : FilePath) (l : Lock)
      → transfer_paths fs url_path percent_decode world.files root relative token request
        ≡ ok (source, destination)
      → Blocks t.at_source source request world.locks p l
        ⊎ Blocks t.at_destination destination request (prune_locks t.at_source world.locks) p l
      → IsRefused world
          (move_or_copy fs url_path percent_decode t world root relative token request move_file)
  unfolding move_or_copy
  move_blocked t world root relative token request move_file source destination p l e (inl b) =
      let refused = (lock_permits_iff t.at_source world.locks source request).1 (p, l, b) in
      rw (e, move_or_copy) (rw refused (refl, refl))
  move_blocked t world root relative token request move_file source destination p l e (inr b) =
      let refused =
        (lock_permits_iff t.at_destination (prune_locks t.at_source world.locks) destination
            request).1
          (p, l, b) in
      rw (e, move_or_copy)
        (rw (lock_permits_locks t.at_source world.locks source request, refused)
          (elim (Bool-cases (lock_permits t.at_source world.locks source request).1) [
            | inl f ↦ rw f (refl, refl)
            | inr f ↦ rw f (refl, refl)
          ]))
