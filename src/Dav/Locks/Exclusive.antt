-- ===== src/Dav/Locks/Exclusive.antt =====
-- The lock table of src/web/dav.rs grants no two locks of which one lies at or below the other.
use ii.Prelude.{
  ℕ, ◌≡◌, refl, false, none, some, [], ◌∷◌, arith, ltb, Bool-cases, Option-cases, inl, inr, subst,
}
use ii.Prelude.Text.{Str, str_eq}
use ii.Http.Request.{WebRequest}
use ii.Dav.Path.{FilePath, path_eq}
use ii.Dav.Path.Prefix.{path_eq_iff, starts_with_refl}
use ii.Dav.Locks.{
  Lock, LockState, get, remove, prune_locks, related, any_related, acquire, release,
  request_presents_lock,
}

-- No entry's path is related to the path of another.
abbrev pub Exclusive : LockState → Type 0
Exclusive [] = Unit
Exclusive ((path, lock) ∷ locks) = (any_related path locks ≡ false) × Exclusive locks

pub related_comm : (p q : FilePath) → related p q ≡ related q p
related_comm p q = ground arith

any_related-prune :
    (now : ℕ) (p : FilePath) (locks : LockState)
    → any_related p locks ≡ false
    → any_related p (prune_locks now locks) ≡ false
unfolding any_related prune_locks
any_related-prune now p [] h = refl
any_related-prune now p ((q, lock) ∷ locks) h = ground (arith, any_related-prune now p locks)

pub prune_locks-Exclusive :
    (now : ℕ) (locks : LockState) → Exclusive locks → Exclusive (prune_locks now locks)
unfolding prune_locks
prune_locks-Exclusive now [] h = tt
prune_locks-Exclusive now ((q, lock) ∷ locks) (h, hs) =
    let ih = prune_locks-Exclusive now locks hs in
    elim (Bool-cases (ltb now lock.expires)) [
      | inl e ↦ rw e (any_related-prune now q locks h, ih)
      | inr e ↦ rw e ih
    ]

pub any_related-remove :
    (p q : FilePath) (locks : LockState)
    → any_related p locks ≡ false
    → any_related p (remove q locks) ≡ false
unfolding any_related
any_related-remove p q [] h = refl
any_related-remove p q ((r, lock) ∷ locks) h = ground (arith, any_related-remove p q locks)

pub remove-Exclusive :
    (p : FilePath) (locks : LockState) → Exclusive locks → Exclusive (remove p locks)
remove-Exclusive p [] h = tt
remove-Exclusive p ((q, lock) ∷ locks) (h, hs) =
    let ih = remove-Exclusive p locks hs in
    elim (Bool-cases (path_eq q p)) [
      | inl e ↦ rw e ih
      | inr e ↦ rw e (any_related-remove q p locks h, ih)
    ]

-- A path that is related to no entry is related to none that is looked up.
any_related-get :
    (p q : FilePath) (lock : Lock) (locks : LockState)
    → any_related p locks ≡ false
    → get q locks ≡ some lock
    → related p q ≡ false
unfolding any_related
any_related-get p q lock [] h e = ground arith
any_related-get p q lock ((r, k) ∷ locks) h e =
    ground (arith, path_eq_iff r q, any_related-get p q lock locks)

pub get-any_related :
    (p : FilePath) (locks : LockState) → any_related p locks ≡ false → get p locks ≡ none
get-any_related p locks h = elim (Option-cases (get p locks)) [
  | inl e ↦ e
  | inr (l, e) ↦ ground (arith, any_related-get p p l locks h e, starts_with_refl p)
]

-- Beside an entry that is looked up no other is related to its path.
any_related-remove_self :
    (p : FilePath) (lock : Lock) (locks : LockState)
    → Exclusive locks
    → get p locks ≡ some lock
    → any_related p (remove p locks) ≡ false
unfolding any_related
any_related-remove_self p lock [] h e = refl
any_related-remove_self p lock ((q, k) ∷ locks) (h, hs) e = elim (Bool-cases (path_eq q p)) [
  | inl f ↦ rw f (
      any_related-remove p p locks
        (subst (λ r. any_related r locks ≡ false) ((path_eq_iff q p).0 f) h))
  | inr f ↦
      let e' : get p locks ≡ some lock = rw f at e in
      let ih = any_related-remove_self p lock locks hs e' in
      let apart = any_related-get q p lock locks h e' in rw (f, any_related) (ground arith)
]

-- Whatever a LOCK request asks for, the table stays exclusive.
pub acquire-Exclusive :
    (now : ℕ) (locks : LockState) (target : FilePath) (request : WebRequest) (until : ℕ)
    (fresh : Str)
    → Exclusive locks
    → Exclusive (acquire now locks target request until fresh).0
unfolding acquire
acquire-Exclusive now locks target request until fresh h =
    let pruned = prune_locks now locks in
    let k = prune_locks-Exclusive now locks h in
    elim (Option-cases (get target pruned)) [
      | inl e ↦ elim (Bool-cases (any_related target pruned)) [
        | inl f ↦ rw (e, f, acquire) k
        | inr f ↦
            rw (e, f, acquire)
              (any_related-remove target target pruned f, remove-Exclusive target pruned k)
      ]
      | inr (lock, e) ↦ elim (Bool-cases (request_presents_lock lock request)) [
        | inl f ↦
            rw (e, f, acquire)
              (any_related-remove_self target lock pruned k e, remove-Exclusive target pruned k)
        | inr f ↦ rw (e, f, acquire) k
      ]
    ]

-- An UNLOCK request keeps it so.
pub release-Exclusive :
    (now : ℕ) (locks : LockState) (target : FilePath) (token : Str)
    → Exclusive locks
    → Exclusive (release now locks target token).0
unfolding release
release-Exclusive now locks target token h =
    let pruned = prune_locks now locks in
    let k = prune_locks-Exclusive now locks h in
    elim (Option-cases (get target pruned)) [
      | inl e ↦ rw (e, release) k
      | inr (lock, e) ↦ elim (Bool-cases (str_eq lock.token token)) [
        | inl f ↦ rw (e, f, release) (remove-Exclusive target pruned k)
        | inr f ↦ rw (e, f, release) k
      ]
    ]
