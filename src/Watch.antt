-- ===== src/Watch.antt =====
-- The watch loop of src/service/watch.rs. A round is given by its time and by the files that the
-- scan has found; paths are texts, and times are nanoseconds. The maps are lists of entries.
pub mod Each
pub mod Settled
mod Tests
use ii.Prelude.{
  ℕ, ◌+◌, ◌-◌, Bool, true, false, ◌&&◌, Option, none, some, List, [], ◌∷◌, ◌++◌, if◌then◌else◌, leb,
  ◌==◌, is_some, is_some_and, or_else,
}
use ii.Prelude.Text.{Str, str_eq}

pub record FileStamp : Type 0 where
  pub size : ℕ
  pub modified : ℕ

abbrev pub stamp_eq : FileStamp → FileStamp → Bool
stamp_eq a b = a.size == b.size && a.modified == b.modified

module _ {V : Type 0} where
  unfoldable pub get : Str → List (Str × V) → Option V
  get path [] = none
  get path ((p, v) ∷ map) = if str_eq p path then some v else get path map

  unfoldable pub insert : Str → V → List (Str × V) → List (Str × V)
  insert path new [] = (path, new) ∷ []
  insert path new ((p, v) ∷ map) =
      if str_eq p path then (path, new) ∷ map else (p, v) ∷ insert path new map

  unfoldable pub remove : Str → List (Str × V) → List (Str × V)
  remove path [] = []
  remove path ((p, v) ∷ map) =
      let rest = remove path map in if str_eq p path then rest else (p, v) ∷ rest

abbrev pub Files : Type 0
Files = List (Str × FileStamp)

-- A stamp that has not settled yet, and the time of the round that saw it first.
abbrev Pending : Type 0
Pending = List (Str × (FileStamp × ℕ))

-- `retain` of the paths that the scan has found.
unfoldable pub retain : {V : Type 0} → Files → List (Str × V) → List (Str × V)
retain current [] = []
retain current ((p, v) ∷ map) =
    let rest = retain current map in if is_some (get p current) then (p, v) ∷ rest else rest

pub record WatchState : Type 0 where
  pub seen : Files
  pub pending : Pending
  pub jobs : List Str

-- The entry of a changed file: the old one, if it has the same stamp.
abbrev pub entry_of : ℕ → FileStamp → Option (FileStamp × ℕ) → FileStamp × ℕ
entry_of now stamp none = (stamp, now)
entry_of now stamp (some (old, since)) = if stamp_eq old stamp then (old, since) else (stamp, now)

-- One file of the scan.
unfoldable pub settle : ℕ → ℕ → Str → FileStamp → WatchState → WatchState
settle now stabilize path stamp state =
    if is_some_and (get path state.seen) (λ previous. stamp_eq previous stamp)
    then state
    else let entry = entry_of now stamp (get path state.pending) in
      if leb stabilize (now - entry.1)
      then record {
        seen = insert path stamp state.seen;
        pending = remove path state.pending;
        jobs = state.jobs ++ path ∷ [];
      }
      else record state { pending = insert path entry state.pending }

settle_all : ℕ → ℕ → Files → WatchState → WatchState
settle_all now stabilize [] state = state
settle_all now stabilize ((path, stamp) ∷ files) state =
    settle_all now stabilize files (settle now stabilize path stamp state)

-- One round of the loop, up to the sending of its jobs.
unfoldable pub round : ℕ → ℕ → Files → WatchState → WatchState
unfolding settle_all
round now stabilize current before =
    let state = settle_all now stabilize current (record before { jobs = [] }) in
    record {
      seen = retain current state.seen;
      pending = retain current state.pending;
      jobs = state.jobs;
    }
