-- ===== src/Dav/Locks.antt =====
-- The lock table of src/web/dav.rs. The hash map is a list of its entries with distinct keys; what
-- the code does with it does not depend on the order of the entries.
pub mod Exclusive
pub mod Permits
pub mod Apart
pub mod Move
pub mod Holder
pub mod Reach
use ii.Prelude.{
  ℕ, ◌+◌, ◌*◌, ◌≡◌, Bool, true, false, not, ◌&&◌, ◌||◌, Option, none, some, List, [], ◌∷◌, ◌++◌,
  any, all, is_some, is_some_and, if◌then◌else◌, and_then, ltb, ◌==◌,
}
use ii.Prelude.Text.{Str, codes, str_eq, contains_str, trim, trim_matches}
use ii.Http.Request.{WebRequest, header}
use ii.Dav.Path.{FilePath, strip_path, starts_with, path_eq}

pub record Lock : Type 0 where
  pub token : Str
  pub expires : ℕ

abbrev pub LockState : Type 0
LockState = List (FilePath × Lock)

abbrev pub nanoseconds : ℕ → ℕ
nanoseconds seconds = seconds * 1_000_000_000

-- The hash map: `get`, `insert` and `remove`.
abbrev pub get : FilePath → LockState → Option Lock
get path [] = none
get path ((p, lock) ∷ locks) = if path_eq p path then some lock else get path locks

abbrev pub remove : FilePath → LockState → LockState
remove path [] = []
remove path ((p, lock) ∷ locks) =
    let rest = remove path locks in if path_eq p path then rest else (p, lock) ∷ rest

abbrev pub insert : FilePath → Lock → LockState → LockState
insert path lock locks = (path, lock) ∷ remove path locks

unfoldable pub prune_locks : ℕ → LockState → LockState
prune_locks now [] = []
prune_locks now ((path, lock) ∷ locks) =
    let rest = prune_locks now locks in if ltb now lock.expires then (path, lock) ∷ rest else rest

abbrev is_angle : ℕ → Bool
is_angle c = c == b'<' || c == b'>'

unfoldable pub strip_lock_token : Str → Str
strip_lock_token value = trim_matches is_angle (trim value)

unfoldable pub request_presents_lock : Lock → WebRequest → Bool
request_presents_lock lock request =
    is_some_and (header request (codes "if")) (contains_str lock.token)
    || is_some_and (header request (codes "lock-token"))
        (λ value. str_eq (strip_lock_token value) lock.token)

-- One of the two paths lies at or below the other.
abbrev pub related : FilePath → FilePath → Bool
related target path = starts_with target path || starts_with path target

-- The state after `lock_permits`, which drops what has expired, and its answer.
unfoldable pub all_presented : FilePath → WebRequest → LockState → Bool
all_presented target request [] = true
all_presented target request ((path, lock) ∷ locks) =
    (not (related target path) || request_presents_lock lock request)
    && all_presented target request locks

unfoldable pub lock_permits : ℕ → LockState → FilePath → WebRequest → LockState × Bool
lock_permits now locks target request =
    let pruned = prune_locks now locks in (pruned, all_presented target request pruned)

-- The critical section of the handler `lock`: the token of the lock that is granted or extended, if
-- any. `until` is when the lock expires, for which the clock is read again behind `now`, and
-- `fresh` the token that the random generator gives.
unfoldable pub any_related : FilePath → LockState → Bool
any_related target [] = false
any_related target ((path, lock) ∷ locks) = related target path || any_related target locks

unfoldable pub acquire : ℕ → LockState → FilePath → WebRequest → ℕ → Str → LockState × Option Str
acquire now locks target request until fresh =
    let pruned = prune_locks now locks in
    elim (get target pruned) [
      | some lock ↦ if not (request_presents_lock lock request) then (pruned, none) else (
        insert target (record { token = lock.token; expires = until }) pruned,
        some lock.token,
      )
      | none ↦
          if any_related target pruned
          then (pruned, none)
          else (insert target (record { token = fresh; expires = until }) pruned, some fresh)
    ]

-- The critical section of the handler `unlock`, and whether it removed a lock.
unfoldable pub release : ℕ → LockState → FilePath → Str → LockState × Bool
release now locks target token =
    let pruned = prune_locks now locks in
    elim (get target pruned) [
      | some lock ↦
          if str_eq lock.token token then (remove target pruned, true) else (pruned, false)
      | none ↦ (pruned, false)
    ]

-- `extract_if` and `extend` of `move_locks`: the entries at or below the source leave the table and
-- come back under the destination, in place of what the table has there.
unfoldable pub kept_locks : FilePath → LockState → LockState
kept_locks source [] = []
kept_locks source ((path, lock) ∷ locks) =
    let rest = kept_locks source locks in
    if starts_with path source then rest else (path, lock) ∷ rest

unfoldable pub moved_locks : FilePath → FilePath → LockState → LockState
moved_locks source destination [] = []
moved_locks source destination ((path, lock) ∷ locks) =
    let rest = moved_locks source destination locks in
    elim (strip_path source path) [
      | some suffix ↦ (destination ++ suffix, lock) ∷ rest
      | none ↦ rest
    ]

unfoldable pub extend : LockState → LockState → LockState
extend locks [] = locks
extend locks ((path, lock) ∷ moved) = extend (insert path lock locks) moved

unfoldable pub move_locks : ℕ → LockState → FilePath → FilePath → LockState
move_locks now locks source destination =
    let pruned = prune_locks now locks in
    extend (kept_locks source pruned) (moved_locks source destination pruned)
