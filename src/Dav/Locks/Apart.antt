-- ===== src/Dav/Locks/Apart.antt =====
-- Two lock tables of src/web/dav.rs of which no entry is related to one of the other.
use ii.Prelude.{◌≡◌, refl, false, [], ◌∷◌, ◌++◌, arith, Bool-cases, Option-cases, inl, inr}
use ii.Dav.Path.{FilePath, starts_with, strip_path}
use ii.Dav.Path.Prefix.{starts_with_shorter, starts_with_comparable}
use ii.Dav.Locks.{Lock, LockState, insert, related, any_related, kept_locks, moved_locks, extend}
use ii.Dav.Locks.Exclusive.{Exclusive, related_comm, any_related-remove, remove-Exclusive}

-- No path of the second table is related to one of the first.
abbrev Apart : LockState → LockState → Type 0
Apart locks [] = Unit
Apart locks ((q, l) ∷ moved) = (any_related q locks ≡ false) × Apart locks moved

any_related-insert :
    (r q : FilePath) (l : Lock) (locks : LockState)
    → related r q ≡ false
    → any_related r locks ≡ false
    → any_related r (insert q l locks) ≡ false
unfolding any_related
any_related-insert r q l locks h k = ground (arith, any_related-remove r q locks)

Apart-insert :
    (q : FilePath) (l : Lock) (locks moved : LockState)
    → any_related q moved ≡ false
    → Apart locks moved
    → Apart (insert q l locks) moved
unfolding any_related
Apart-insert q l locks [] h a = tt
Apart-insert q l locks ((r, k) ∷ moved) h (a, bs) =
    let rq : related r q ≡ false = ground (arith, related_comm r q) in
    (any_related-insert r q l locks rq a, Apart-insert q l locks moved (ground arith) bs)

pub extend-Exclusive :
    (locks moved : LockState)
    → Exclusive locks
    → Exclusive moved
    → Apart locks moved
    → Exclusive (extend locks moved)
unfolding extend
extend-Exclusive locks [] h x a = h
extend-Exclusive locks ((q, l) ∷ moved) h (x, xs) (a, bs) =
    extend-Exclusive (insert q l locks) moved
      (any_related-remove q q locks a, remove-Exclusive q locks h) xs
      (Apart-insert q l locks moved x bs)

-- What is not related to a path is not related to anything below it.
any_related-append :
    (d s : FilePath) (locks : LockState)
    → any_related d locks ≡ false
    → any_related (d ++ s) locks ≡ false
unfolding any_related
any_related-append d s [] h = refl
any_related-append d s ((p, l) ∷ locks) h =
    ground
      (arith, starts_with_comparable d s p, starts_with_shorter p d s, any_related-append d s locks)

pub moved_locks-Apart :
    (locks : LockState) (source destination : FilePath) (pruned : LockState)
    → any_related destination locks ≡ false
    → Apart locks (moved_locks source destination pruned)
unfolding moved_locks
moved_locks-Apart locks source destination [] h = tt
moved_locks-Apart locks source destination ((q, l) ∷ pruned) h =
    let ih = moved_locks-Apart locks source destination pruned h in
    elim (Option-cases (strip_path source q)) [
      | inl e ↦ rw (e, moved_locks) ih
      | inr (s, e) ↦ rw (e, moved_locks) (any_related-append destination s locks h, ih)
    ]

any_related-kept :
    (p source : FilePath) (locks : LockState)
    → any_related p locks ≡ false
    → any_related p (kept_locks source locks) ≡ false
unfolding any_related kept_locks
any_related-kept p source [] h = refl
any_related-kept p source ((q, l) ∷ locks) h = ground (arith, any_related-kept p source locks)

pub kept_locks-Exclusive :
    (source : FilePath) (locks : LockState) → Exclusive locks → Exclusive (kept_locks source locks)
unfolding kept_locks
kept_locks-Exclusive source [] h = tt
kept_locks-Exclusive source ((q, l) ∷ locks) (h, hs) =
    let ih = kept_locks-Exclusive source locks hs in
    elim (Bool-cases (starts_with q source)) [
      | inl e ↦ rw e ih
      | inr e ↦ rw e (any_related-kept q source locks h, ih)
    ]
