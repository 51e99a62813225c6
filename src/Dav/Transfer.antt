-- ===== src/Dav/Transfer.antt =====
-- `move_or_copy` of src/web/dav.rs: the methods MOVE and COPY.
pub mod Guarded
use ii.Prelude.{
  ℕ, ◌≡◌, Bool, true, false, not, ◌&&◌, ◌||◌, Option, none, some, List, [], ◌∷◌, is_some,
  is_some_and, if◌then◌else◌, and_then, Result, ok, err, ok_or, ◌>>=◌,
}
use ii.Prelude.Text.{Str, codes, eq_ignore_ascii_case}
use ii.Http.Request.{WebRequest, header, web_token_path}
use ii.Http.Response.{Response}
use ii.Dav.Path.{FilePath, starts_with, dav_relative_path, existing_target, writable_target}
use ii.Dav.Locks.{LockState, lock_permits, move_locks}
use ii.Dav.Handlers.{
  FileSystem, World, Outcome, error, locked_423, created_201, no_content_204, is_empty,
  remove_target,
}

-- The instants at which `move_or_copy` looks at the clock: for the two permissions, and for the
-- locks that move.
pub record Instants : Type 0 where
  pub at_source : ℕ
  pub at_destination : ℕ
  pub at_move : ℕ

module _ (url_path percent_decode : Str → Option Str) where
  -- The path of a Destination header, which is a URL or a path.
  unfoldable pub destination_relative : Str → Option Str → Option FilePath
  destination_relative value token =
      let path : Str = elim (url_path value) [ some p ↦ p | none ↦ value ] in
      and_then (web_token_path token path) (dav_relative_path percent_decode)

module _ {S : Type 0} (fs : FileSystem S) where
  -- Behind the permissions: the resource at the destination goes, and the source comes.
  unfoldable pub transfer : ℕ → S → LockState → FilePath → FilePath → Bool → Bool → Outcome S
  transfer now files locks source destination exists move_file =
      let (moved, was_moved) = fs.rename files source destination in
      let (copied, was_copied) = fs.copy_path files source destination in
      let answer = if exists then no_content_204 else created_201 in
      if move_file
      then if was_moved
        then (
          record { files = moved; locks = move_locks now locks source destination },
          some answer,
        )
        else (record { files = moved; locks = locks }, none)
      else (record { files = copied; locks = locks }, if was_copied then some answer else none)

  unfoldable pub replace : ℕ → S → LockState → FilePath → FilePath → Bool → Outcome S
  replace now files locks source destination move_file = elim (fs.is_dir files destination) [
    | none ↦ transfer now files locks source destination false move_file
    | some directory ↦
        let (files1, removed) = remove_target fs files destination directory in
        if removed
        then transfer now files1 locks source destination true move_file
        else (record { files = files1; locks = locks }, none)
  ]

  unfoldable pub move_permitted :
      ℕ → S → LockState → FilePath → FilePath → WebRequest → Bool → Outcome S
  move_permitted now files locks source destination request move_file =
      elim (fs.is_dir files source) [
        | none ↦ (record { files = files; locks = locks }, none)
        | some directory ↦
            if directory && starts_with destination source
            then (
              record { files = files; locks = locks },
              some (error (codes "403 Forbidden") (codes "destination is inside source")),
            )
            else if is_some (fs.is_dir files destination)
                && is_some_and (header request (codes "overwrite"))
                    (λ value. eq_ignore_ascii_case value (codes "F"))
            then (
              record { files = files; locks = locks },
              some (error (codes "412 Precondition Failed") (codes "destination exists")),
            )
            else replace now files locks source destination move_file
      ]

  module _ (url_path percent_decode : Str → Option Str) where
    -- The source and the destination inside the root, or the response that refuses them.
    unfoldable pub transfer_paths :
        S → FilePath → FilePath → Option Str → WebRequest → Result (FilePath × FilePath) Response
    transfer_paths files root relative token request = do
      found ←
          ok_or (existing_target (fs.canonicalize files) root relative)
            (error (codes "404 Not Found") (codes "not found"))
      source ←
          if is_empty relative
          then err (error (codes "403 Forbidden") (codes "cannot move root"))
          else ok found
      value ←
          ok_or (header request (codes "destination"))
            (error (codes "400 Bad Request") (codes "Destination is required"))
      path ←
          ok_or (destination_relative url_path percent_decode value token)
            (error (codes "400 Bad Request") (codes "invalid Destination"))
      named ←
          if is_empty path
          then err (error (codes "400 Bad Request") (codes "invalid Destination"))
          else ok path
      destination ←
          ok_or (writable_target (fs.canonicalize files) root named)
            (error (codes "409 Conflict") (codes "destination parent is missing"))
      ok (source, destination)

    unfoldable pub move_or_copy :
        Instants → World S → FilePath → FilePath → Option Str → WebRequest → Bool → Outcome S
    move_or_copy t world root relative token request move_file =
        elim (transfer_paths world.files root relative token request) [
          | err response ↦ (world, some response)
          | ok (source, destination) ↦
              let (locks1, first) = lock_permits t.at_source world.locks source request in
              let (locks2, second) = lock_permits t.at_destination locks1 destination request in
              if not first
              then (record world { locks = locks1 }, some locked_423)
              else if not second
              then (record world { locks = locks2 }, some locked_423)
              else move_permitted t.at_move world.files locks2 source destination request move_file
        ]
