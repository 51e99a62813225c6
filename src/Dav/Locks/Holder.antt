-- ===== src/Dav/Locks/Holder.antt =====
-- The lock table of src/web/dav.rs over time: what a client that holds a lock can rely on while
-- other clients, who do not present its token, lock, unlock, write and move.
use ii.Prelude.{
  ℕ, ◌<◌, ◌≡◌, ◌∙◌, true, false, some, List, [], ◌∷◌, ◌++◌, All, All-append, arith, Bool-cases,
  Option-cases, inl, inr,
}
use ii.Prelude.Text.{Str, str_eq}
use ii.Http.Request.{WebRequest}
use ii.Dav.Path.{FilePath, path_eq}
use ii.Dav.Path.Prefix.{path_eq_iff}
use ii.Dav.Locks.{
  Lock, LockState, get, prune_locks, related, any_related, lock_permits, acquire, release,
  move_locks, request_presents_lock,
}
use ii.Dav.Locks.Permits.{get-remove, lock_permits_iff, lock_permits_locks, Entry}
use ii.Dav.Locks.Move.{get-move_locks}

-- A MOVE between its critical sections: the locks have permitted its source, or both its paths.
pub data Moving : Type 0 where
  source_permitted : FilePath → FilePath → WebRequest → Moving
  both_permitted : FilePath → FilePath → Moving

-- One critical section of a request that does not present the lock `l`, while the lock has not
-- expired, with the MOVEs that are under way before and after it.
pub data Step (l : Lock) : LockState → List Moving → LockState → List Moving → Type 0 where
  -- LOCK.
  locking :
      (now : ℕ) (locks : LockState) (under_way : List Moving) (target : FilePath)
      (request : WebRequest) (until : ℕ) (fresh : Str)
      → now < l.expires
      → request_presents_lock l request ≡ false
      → Step l locks under_way (acquire now locks target request until fresh).0 under_way
  -- UNLOCK with another token.
  unlocking :
      (now : ℕ) (locks : LockState) (under_way : List Moving) (target : FilePath) (token : Str)
      → now < l.expires
      → str_eq l.token token ≡ false
      → Step l locks under_way (release now locks target token).0 under_way
  -- `lock_permits` of PUT, MKCOL, DELETE and COPY, and of a MOVE that is refused.
  asking :
      (now : ℕ) (locks : LockState) (under_way : List Moving) (target : FilePath)
      (request : WebRequest)
      → now < l.expires
      → Step l locks under_way (lock_permits now locks target request).0 under_way
  -- The first `lock_permits` of a MOVE.
  asking_source :
      (now : ℕ) (locks : LockState) (under_way : List Moving) (source destination : FilePath)
      (request : WebRequest)
      → now < l.expires
      → request_presents_lock l request ≡ false
      → (lock_permits now locks source request).1 ≡ true
      → Step l locks under_way
          (lock_permits now locks source request).0
          (source_permitted source destination request ∷ under_way)
  -- The second one.
  asking_destination :
      (now : ℕ) (locks : LockState) (before after : List Moving) (source destination : FilePath)
      (request : WebRequest)
      → now < l.expires
      → request_presents_lock l request ≡ false
      → (lock_permits now locks destination request).1 ≡ true
      → Step l locks
          (before ++ source_permitted source destination request ∷ after)
          (lock_permits now locks destination request).0
          (before ++ both_permitted source destination ∷ after)
  -- `move_locks`, when the file has been renamed.
  moving :
      (now : ℕ) (locks : LockState) (before after : List Moving) (source destination : FilePath)
      → now < l.expires
      → Step l locks
          (before ++ both_permitted source destination ∷ after)
          (move_locks now locks source destination)
          (before ++ after)
  -- The end of a MOVE that fails before it moves the locks.
  ending :
      (locks : LockState) (before after : List Moving) (move : Moving)
      → Step l locks (before ++ move ∷ after) locks (before ++ after)

pub data Steps (l : Lock) : LockState → List Moving → LockState → List Moving → Type 0 where
  stay : (locks : LockState) (under_way : List Moving) → Steps l locks under_way locks under_way
  next :
      (a b c : LockState) (m n o : List Moving) → Step l a m b n → Steps l b n c o → Steps l a m c o

-- What the MOVE has been permitted is not at, above or below the path.
abbrev pub Apart : FilePath → Moving → Type 0
Apart p (source_permitted source destination request) = related source p ≡ false
Apart p (both_permitted source destination) =
    (related source p ≡ false) × (related destination p ≡ false)

All-split :
    (P : Moving → Type 0) (before after : List Moving) (move : Moving)
    → All P (before ++ move ∷ after)
    → All P before × P move × All P after
All-split P [] after move (h, hs) = (tt, h, hs)
All-split P (m ∷ before) after move (h, hs) =
    let (a, b, c) = All-split P before after move hs in ((h, a), b, c)

get-prune :
    (now : ℕ) (p : FilePath) (l : Lock) (locks : LockState)
    → now < l.expires
    → get p locks ≡ some l
    → get p (prune_locks now locks) ≡ some l
unfolding prune_locks
get-prune now p l [] live h = h
get-prune now p l ((q, k) ∷ locks) live h = ground (arith, get-prune now p l locks)

get-Entry : (p : FilePath) (l : Lock) (locks : LockState) → get p locks ≡ some l → Entry p l locks
get-Entry p l [] h = absurd (ground arith)
get-Entry p l ((q, k) ∷ locks) h = elim (Bool-cases (path_eq q p)) [
  | inl e ↦ inl ((path_eq_iff q p).0 e, ground arith)
  | inr e ↦ inr (get-Entry p l locks (ground arith))
]

-- What a permitted request touches is apart from a live lock that it does not present.
permitted-apart :
    (now : ℕ) (locks : LockState) (target p : FilePath) (request : WebRequest) (l : Lock)
    → now < l.expires
    → request_presents_lock l request ≡ false
    → get p locks ≡ some l
    → (lock_permits now locks target request).1 ≡ true
    → related target p ≡ false
permitted-apart now locks target p request l live n h k = elim (Bool-cases (related target p)) [
  | inl e ↦
      let refused =
        (lock_permits_iff now locks target request).1 (p, l, (get-Entry p l locks h, live, e, n)) in
      absurd (ground arith)
  | inr e ↦ e
]

get-acquire :
    (now : ℕ) (locks : LockState) (target p : FilePath) (request : WebRequest) (until : ℕ)
    (fresh : Str) (l : Lock)
    → request_presents_lock l request ≡ false
    → get p (prune_locks now locks) ≡ some l
    → get p (acquire now locks target request until fresh).0 ≡ some l
unfolding acquire
get-acquire now locks target p request until fresh l n h =
    let pruned = prune_locks now locks in
    elim (Option-cases (get target pruned)) [
      | inl e ↦ elim (Bool-cases (any_related target pruned)) [
        | inl f ↦ rw (e, f, acquire) h
        | inr f ↦ ground (arith, path_eq_iff target p, get-remove p target pruned)
      ]
      | inr (k, e) ↦ elim (Bool-cases (request_presents_lock k request)) [
        | inl f ↦ ground (arith, path_eq_iff target p, get-remove p target pruned)
        | inr f ↦ rw (e, f, acquire) h
      ]
    ]

get-release :
    (now : ℕ) (locks : LockState) (target p : FilePath) (token : Str) (l : Lock)
    → str_eq l.token token ≡ false
    → get p (prune_locks now locks) ≡ some l
    → get p (release now locks target token).0 ≡ some l
unfolding release
get-release now locks target p token l n h =
    let pruned = prune_locks now locks in
    elim (Option-cases (get target pruned)) [
      | inl e ↦ rw (e, release) h
      | inr (k, e) ↦ elim (Bool-cases (str_eq k.token token)) [
        | inl f ↦ ground (arith, path_eq_iff target p, get-remove p target pruned)
        | inr f ↦ rw (e, f, release) h
      ]
    ]

-- The lock is in the table, and the MOVEs that are under way do not touch it.
Held : FilePath → Lock → LockState → List Moving → Type 0
Held p l locks under_way = (get p locks ≡ some l) × All (Apart p) under_way

Step-Held :
    (p : FilePath) (l : Lock) (a b : LockState) (m n : List Moving)
    → Step l a m b n
    → Held p l a m
    → Held p l b n
unfolding Held
Step-Held p l _ _ _ _ (locking now locks m target request until fresh live absent) (h, apart) = (
  get-acquire now locks target p request until fresh l absent (get-prune now p l locks live h),
  apart,
)
Step-Held p l _ _ _ _ (unlocking now locks m target token live absent) (h, apart) =
    (get-release now locks target p token l absent (get-prune now p l locks live h), apart)
Step-Held p l _ _ _ _ (asking now locks m target request live) (h, apart) =
    (rw (lock_permits_locks now locks target request) (get-prune now p l locks live h), apart)
Step-Held p l _ _ _ _ (asking_source now locks m source destination request live absent f)
      (h, apart) =
    (
      rw (lock_permits_locks now locks source request) (get-prune now p l locks live h),
      (permitted-apart now locks source p request l live absent h f, apart),
    )
Step-Held p l _ _ _ _
      (asking_destination now locks before after source destination request live absent f)
      (h, apart) =
    let (front, one, back) =
      All-split (Apart p) before after (source_permitted source destination request) apart in
    let two = permitted-apart now locks destination p request l live absent h f in
    (
      rw (lock_permits_locks now locks destination request) (get-prune now p l locks live h),
      All-append (Apart p) before (both_permitted source destination ∷ after) front
          ((one, two), back),
    )
Step-Held p l _ _ _ _ (moving now locks before after source destination live) (h, apart) =
    let (front, (one, two), back) =
      All-split (Apart p) before after (both_permitted source destination) apart in
    (
      get-move_locks now locks source destination p (ground arith) (ground arith)
          ∙ get-prune now p l locks live h,
      All-append (Apart p) before after front back,
    )
Step-Held p l _ _ _ _ (ending locks before after move) (h, apart) =
    let (front, _, back) = All-split (Apart p) before after move apart in
    (h, All-append (Apart p) before after front back)

Steps-Held :
    (p : FilePath) (l : Lock) (a b : LockState) (m n : List Moving)
    → Steps l a m b n
    → Held p l a m
    → Held p l b n
Steps-Held p l _ _ _ _ (stay a m) h = h
Steps-Held p l _ _ _ _ (next a c b m o n s rest) h =
    Steps-Held p l c b o n rest (Step-Held p l a c m o s h)

-- However the critical sections of the requests of other clients interleave, a lock stays in the
-- table, with its token and its time, as long as it has not expired and none of these requests
-- presents its token, if the MOVEs that are under way at the beginning have been permitted only
-- for paths that are not at, above or below that of the lock.
pub holder_keeps_lock :
    (p : FilePath) (l : Lock) (a b : LockState) (m n : List Moving)
    → get p a ≡ some l
    → All (Apart p) m
    → Steps l a m b n
    → get p b ≡ some l
unfolding Held
holder_keeps_lock p l a b m n h apart steps = (Steps-Held p l a b m n steps (h, apart)).0
