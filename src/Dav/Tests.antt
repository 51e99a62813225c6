-- ===== src/Dav/Tests.antt =====
-- Runs of src/web/dav.rs on a small file system in memory, and instances of the theorems.
mod Disk
use ii.Prelude.{
  ℕ, ◌+◌, ◌<◌, ◌≡◌, ◌↔◌, ◌⊎◌, refl, sym, subst, Bool-cases, Bool, true, false, not, ◌&&◌, Option,
  none, some, List, [], ◌∷◌, ◌++◌, All, any, arith, inl, inr, is_some, map, if◌then◌else◌, and_then,
  Result, ok, err, length,
}
use ii.Prelude.Text.{Str, Bytes, codes, str_eq, split_once, is_whitespace, eq_ignore_ascii_case}
use ii.Http.Request.{WebRequest, absent, header, web_token_path}
use ii.Dav.Path.{
  FilePath, strip_path, starts_with, path_eq, parent, file_name, components, is_bad_segment,
  decode_segments, dav_relative_path, existing_target, writable_target, existing_or_writable_target,
}
use ii.Dav.Path.Inside.{IsSafe, dav_relative_path-IsSafe, writable_target-inside}
use ii.Dav.Auth.{BasicAuth, new, permits, constant_time_eq}
use ii.Dav.Auth.Compare.{IsByte, constant_time_eq_iff}
use ii.Dav.Auth.Admission.{permits_iff}
use ii.Dav.Locks.{
  Lock, LockState, get, prune_locks, any_related, acquire, release, lock_permits, all_presented,
  move_locks, nanoseconds, request_presents_lock, strip_lock_token, kept_locks, moved_locks, extend,
}
use ii.Dav.Locks.Exclusive.{Exclusive}
use ii.Dav.Locks.Permits.{Blocks, lock_permits_iff, acquire_granted}
use ii.Dav.Locks.Move.{get-move_locks_moved}
use ii.Dav.Locks.Holder.{Step, stay, next, holder_keeps_lock}
use ii.Dav.Locks.Reach.{Unmoved, start, Unmoved-Exclusive}
use ii.Dav.Handlers.{
  FileSystem, Created, done, already_exists, failed, World, locked_423, created_201, put, mkcol,
  delete, put_permitted, remove_target, Outcome,
}
use ii.Dav.Handlers.Guarded.{put_blocked, mkcol_blocked, delete_blocked}
use ii.Dav.Transfer.{
  Instants, transfer_paths, destination_relative, move_or_copy, move_permitted, replace, transfer,
}
use ii.Dav.Transfer.Guarded.{IsRefused, move_blocked}
use ii.Dav.Locking.{lock, unlock, lock_response}
use ii.Dav.Server.{
  Setting, Connection, Config, serve_dav_connection, write_basic_auth_required, dispatch, is_denied,
  request_path_of,
}
use ii.Dav.Tests.Disk.{
  Files, disk, root, file_a, file_b, held, files, world, request_of, put_a, put_a_with_token,
  encoded_user, base64_decode, plain, no_url, setting, instants, connection, config,
}
use ii.Dav.Server.ReadOnly.{serve-read_only, serve-unauthorized}

printer : Unit {0}
unfolding disk base64_decode existing_target writable_target existing_or_writable_target parent
    file_name decode_segments dav_relative_path is_bad_segment components permits new
    constant_time_eq any_related acquire release lock_permits all_presented move_locks prune_locks
    request_presents_lock strip_lock_token kept_locks moved_locks extend header web_token_path put
    mkcol delete put_permitted remove_target transfer_paths destination_relative move_or_copy
    move_permitted replace transfer lock unlock serve_dav_connection dispatch is_denied
    request_path_of
printer = tt

-- A PUT request without the token of the lock is refused, and one with it writes the file.
put_without_token :
    serve_dav_connection disk setting config connection world (ok put_a) ≡ (world, some locked_423)
unfolding printer
put_without_token = refl

put_with_token :
    (serve_dav_connection disk setting config connection world (ok put_a_with_token)) ≡ (
      record { files = (file_a, some (codes "new")) ∷ (root, none) ∷ []; locks = world.locks },
      some created_201,
    )
unfolding printer
put_with_token = refl

dots_are_refused : dav_relative_path plain (codes "a/../b") ≡ none
unfolding printer
dots_are_refused = refl

-- Two locks, of which neither is at, above or below the other, and a request with both tokens.
abbrev lock_x : Lock
lock_x = record { token = codes "opaquelocktoken:x"; expires = 3_600_000_000_000 }

abbrev file_a_x : FilePath
file_a_x = file_a ++ codes "x" ∷ []

abbrev two_locks : LockState
two_locks = (file_a_x, lock_x) ∷ (file_b, held) ∷ []

two_locks-Exclusive : Exclusive two_locks
unfolding printer
two_locks-Exclusive = (refl, (refl, tt))

abbrev move_a_to_b : WebRequest
move_a_to_b = request_of (codes "MOVE") (codes "/a") (
    (codes "If", codes "(<opaquelocktoken:x>) (<opaquelocktoken:1>)")
    ∷ (codes "Destination", codes "/b")
    ∷ [])

-- A MOVE that presents both tokens leaves one lock below the other.
move_leaves_nested_locks :
    ((lock_permits 5 two_locks file_a move_a_to_b).1 ≡ true)
    × ((lock_permits 6 two_locks file_b move_a_to_b).1 ≡ true)
    × (move_locks 7 two_locks file_a file_b
        ≡ (file_b ++ codes "x" ∷ [], lock_x) ∷ (file_b, held) ∷ [])
unfolding printer
move_leaves_nested_locks = (refl, refl, refl)

-- A MOVE of a file onto itself, and one of a file onto the directory that holds it, remove the
-- file before the call that renames it fails.
abbrev open_world : World Files
open_world = record { files = files; locks = [] }

abbrev move_to : Str → WebRequest
move_to destination =
    request_of (codes "MOVE") (codes "/a") ((codes "Destination", destination) ∷ [])

move_onto_itself :
    serve_dav_connection disk setting config connection open_world (ok (move_to (codes "/a")))
    ≡ (record { files = (root, none) ∷ []; locks = [] }, none)
unfolding printer
move_onto_itself = refl

abbrev dir_d : FilePath
dir_d = codes "srv" ∷ codes "d" ∷ []

abbrev nested_world : World Files
nested_world = record {
  files = (root, none) ∷ (dir_d, none) ∷ (dir_d ++ codes "f" ∷ [], some (codes "data")) ∷ [];
  locks = [];
}

abbrev move_up : WebRequest
move_up = request_of (codes "MOVE") (codes "/d/f") ((codes "Destination", codes "/d") ∷ [])

move_onto_parent :
    serve_dav_connection disk setting config connection nested_world (ok move_up)
    ≡ (record { files = (root, none) ∷ []; locks = [] }, none)
unfolding printer
move_onto_parent = refl

-- Instances of the theorems.
abbrev read_only_config : Config
read_only_config = record config { read_only = true }

serve-read_only_example :
    (serve_dav_connection disk setting read_only_config connection world (ok put_a_with_token)).0
    ≡ world
serve-read_only_example =
    serve-read_only disk setting read_only_config connection world (ok put_a_with_token) refl

abbrev auth : BasicAuth
auth = record { credentials = codes "a:b" }

abbrev auth_config : Config
auth_config = record config { basic_auth = some auth }

put_a-unauthorized : permits base64_decode auth put_a ≡ false
unfolding printer
put_a-unauthorized = refl

ab-IsByte : All IsByte (codes "a:b")
ab-IsByte = (omega arith, (omega arith, (omega arith, tt)))

base64_decode-IsByte :
    (text : Str) (bytes : Bytes) → base64_decode text ≡ some bytes → All IsByte bytes
unfolding base64_decode
base64_decode-IsByte text bytes h = elim (Bool-cases (str_eq text encoded_user)) [
  | inl e ↦ let same : bytes ≡ codes "a:b" = ground arith in subst (All IsByte) (sym same) ab-IsByte
  | inr e ↦ absurd (ground arith)
]

abbrev login : WebRequest
login = request_of (codes "PUT") (codes "/a") ((codes "Authorization", codes "basic YTpi") ∷ [])

login_permitted : permits base64_decode auth login ≡ true
unfolding printer
login_permitted = refl

permits_iff_example : (permits base64_decode auth login ≡ true) ↔ (
    (value scheme encoded : Str) × (header login (codes "authorization") ≡ some value)
    × (split_once b' ' value ≡ some (scheme, encoded))
    × (eq_ignore_ascii_case scheme (codes "basic") ≡ true)
    × (any is_whitespace encoded ≡ false)
    × (base64_decode encoded ≡ some (codes "a:b")))
permits_iff_example = permits_iff base64_decode auth login ab-IsByte base64_decode-IsByte

a_b_path : dav_relative_path plain (codes "a//b/") ≡ some (codes "a" ∷ codes "b" ∷ [])
unfolding printer
a_b_path = refl

dav_relative_path-IsSafe_example : All IsSafe (codes "a" ∷ codes "b" ∷ [])
dav_relative_path-IsSafe_example =
    dav_relative_path-IsSafe plain (codes "a//b/") (codes "a" ∷ codes "b" ∷ []) a_b_path

b-target : writable_target (disk.canonicalize files) root (codes "b" ∷ []) ≡ some file_b
unfolding printer
b-target = refl

b_path : dav_relative_path plain (codes "b") ≡ some (codes "b" ∷ [])
unfolding printer
b_path = refl

writable_target-inside_example :
    (above directory : FilePath) × (name : Str) × (file_b ≡ directory ++ name ∷ [])
    × IsSafe name
    × (root ++ codes "b" ∷ [] ≡ above ++ name ∷ [])
    × (disk.canonicalize files above ≡ some directory)
    × (starts_with directory root ≡ true)
writable_target-inside_example =
    writable_target-inside plain (disk.canonicalize files) root (codes "b") (codes "b") [] file_b
      b_path b-target

lock_permits_iff_example :
    ((lock_permits 5 world.locks file_a put_a).1 ≡ false)
    ↔ ((p : FilePath) × (l : Lock) × Blocks 5 file_a put_a world.locks p l)
lock_permits_iff_example = lock_permits_iff 5 world.locks file_a put_a

a-Blocks : Blocks 5 file_a put_a world.locks file_a held
unfolding printer
a-Blocks = (inl (refl, refl), omega arith, refl, refl)

acquired : (acquire 5 world.locks file_b put_a 60 (codes "t")).1 ≡ some (codes "t")
unfolding printer
acquired = refl

acquire_granted_example :
    (get file_b (acquire 5 world.locks file_b put_a 60 (codes "t")).0
      ≡ some (record { token = codes "t"; expires = 60 }))
    × (get file_a (acquire 5 world.locks file_b put_a 60 (codes "t")).0
        ≡ get file_a (prune_locks 5 world.locks))
    × (((codes "t" ≡ codes "t") × (any_related file_b (prune_locks 5 world.locks) ≡ false))
        ⊎ ((l : Lock) × (get file_b (prune_locks 5 world.locks) ≡ some l)
            × (l.token ≡ codes "t")
            × (request_presents_lock l put_a ≡ true)))
acquire_granted_example =
    acquire_granted 5 world.locks file_b put_a 60 (codes "t") (codes "t") file_a acquired refl

Unmoved-Exclusive_example : Exclusive (acquire 5 [] file_a put_a 60 (codes "t")).0
Unmoved-Exclusive_example =
    Unmoved-Exclusive (acquire 5 [] file_a put_a 60 (codes "t")).0
      (Unmoved.locking 5 [] file_a put_a 60 (codes "t") start)

a_not_presented : request_presents_lock held put_a ≡ false
unfolding printer
a_not_presented = refl

holder_keeps_lock_example :
    get file_a (acquire 5 world.locks file_a put_a 60 (codes "t")).0 ≡ some held
holder_keeps_lock_example =
    holder_keeps_lock file_a held world.locks (acquire 5 world.locks file_a put_a 60 (codes "t")).0
      [] [] refl tt
      (next world.locks _ _ [] [] []
        (Step.locking 5 world.locks [] file_a put_a 60 (codes "t") (omega arith) a_not_presented)
        (stay _ []))

-- A lock that is taken between the questions and the end of a MOVE is carried off.
lock_carried_off :
    ((lock_permits 5 [] file_a put_a).1 ≡ true)
    × ((lock_permits 5 [] file_b put_a).1 ≡ true)
    × ((acquire 6 [] file_a put_a 60 (codes "t")).1 ≡ some (codes "t"))
    × (get file_a (move_locks 7 (acquire 6 [] file_a put_a 60 (codes "t")).0 file_a file_b) ≡ none)
unfolding printer
lock_carried_off = (refl, refl, refl, refl)

x_is_there : get (file_a ++ codes "x" ∷ []) (prune_locks 7 two_locks) ≡ some lock_x
unfolding printer
x_is_there = refl

get-move_locks_moved_example :
    get (file_b ++ codes "x" ∷ []) (move_locks 7 two_locks file_a file_b) ≡ some lock_x
get-move_locks_moved_example =
    get-move_locks_moved 7 two_locks file_a file_b (codes "x" ∷ []) lock_x two_locks-Exclusive
      x_is_there

a-writable : writable_target (disk.canonicalize files) root (codes "a" ∷ []) ≡ some file_a
unfolding printer
a-writable = refl

a-existing : existing_target (disk.canonicalize files) root (codes "a" ∷ []) ≡ some file_a
unfolding printer
a-existing = refl

abbrev move_without_token : WebRequest
move_without_token = request_of (codes "MOVE") (codes "/a") ((codes "Destination", codes "/b") ∷ [])

moving_paths :
    transfer_paths disk no_url plain files root (codes "a" ∷ []) none move_without_token
    ≡ ok (file_a, file_b)
unfolding printer
moving_paths = refl

move-Blocks : Blocks 5 file_a move_without_token world.locks file_a held
unfolding printer
move-Blocks = (inl (refl, refl), omega arith, refl, refl)
