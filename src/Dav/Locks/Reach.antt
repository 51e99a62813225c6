-- ===== src/Dav/Locks/Reach.antt =====
-- The lock tables that the requests of src/web/dav.rs lead to before a MOVE has carried a lock.
use ii.Prelude.{ℕ, ◌≡◌, []}
use ii.Prelude.Text.{Str}
use ii.Http.Request.{WebRequest}
use ii.Dav.Path.{FilePath}
use ii.Dav.Locks.{
  LockState, prune_locks, lock_permits, acquire, release, moved_locks, extend, move_locks,
}
use ii.Dav.Locks.Exclusive.{Exclusive, acquire-Exclusive, release-Exclusive, prune_locks-Exclusive}
use ii.Dav.Locks.Apart.{kept_locks-Exclusive}

-- A server starts without a lock. The table has no lock at or below the source of a MOVE.
pub data Unmoved : LockState → Type 0 where
  start : Unmoved []
  locking :
      (now : ℕ) (locks : LockState) (target : FilePath) (request : WebRequest) (until : ℕ)
      (fresh : Str)
      → Unmoved locks
      → Unmoved (acquire now locks target request until fresh).0
  unlocking :
      (now : ℕ) (locks : LockState) (target : FilePath) (token : Str)
      → Unmoved locks
      → Unmoved (release now locks target token).0
  asking :
      (now : ℕ) (locks : LockState) (target : FilePath) (request : WebRequest)
      → Unmoved locks
      → Unmoved (lock_permits now locks target request).0
  moving :
      (now : ℕ) (locks : LockState) (source destination : FilePath)
      → Unmoved locks
      → moved_locks source destination (prune_locks now locks) ≡ []
      → Unmoved (move_locks now locks source destination)

-- As long as no MOVE has carried a lock along, whatever LOCK, UNLOCK and other requests come, no
-- lock of the table lies at, above or below another.
pub Unmoved-Exclusive : (locks : LockState) → Unmoved locks → Exclusive locks
unfolding lock_permits move_locks extend
Unmoved-Exclusive _ start = tt
Unmoved-Exclusive _ (locking now locks target request until fresh r) =
    acquire-Exclusive now locks target request until fresh (Unmoved-Exclusive locks r)
Unmoved-Exclusive _ (unlocking now locks target token r) =
    release-Exclusive now locks target token (Unmoved-Exclusive locks r)
Unmoved-Exclusive _ (asking now locks target request r) =
    prune_locks-Exclusive now locks (Unmoved-Exclusive locks r)
Unmoved-Exclusive _ (moving now locks source destination r h) = rw h (
    kept_locks-Exclusive source (prune_locks now locks)
      (prune_locks-Exclusive now locks (Unmoved-Exclusive locks r)))
