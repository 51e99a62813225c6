-- ===== src/Dav/Locks/Move.antt =====
-- `move_locks` of src/web/dav.rs: the locks that move with a resource.
use ii.Prelude.{
  ℕ, ◌≡◌, ◌∙◌, refl, sym, false, none, some, [], ◌∷◌, ◌++◌, arith, Bool-cases, Option-cases, inl,
  inr, subst,
}
use ii.Dav.Path.{FilePath, starts_with, path_eq, strip_path}
use ii.Dav.Path.Prefix.{
  path_eq_iff, strip_path-append, strip_path_sound, starts_with-append_append, path_eq-append,
}
use ii.Dav.Locks.{
  Lock, LockState, get, insert, prune_locks, related, any_related, kept_locks, moved_locks, extend,
  move_locks,
}
use ii.Dav.Locks.Exclusive.{Exclusive, prune_locks-Exclusive, get-any_related}
use ii.Dav.Locks.Permits.{get-insert}
use ii.Dav.Locks.Apart.{extend-Exclusive, moved_locks-Apart, kept_locks-Exclusive}

get-extend :
    (p : FilePath) (locks moved : LockState)
    → get p moved ≡ none
    → get p (extend locks moved) ≡ get p locks
unfolding extend
get-extend p locks [] h = refl
get-extend p locks ((q, l) ∷ moved) h = elim (Bool-cases (path_eq q p)) [
  | inl e ↦ absurd (ground arith)
  | inr e ↦ get-extend p (insert q l locks) moved (rw e at h) ∙ (get-insert p q l locks ∙ rw e refl)
]

get-kept :
    (p source : FilePath) (locks : LockState)
    → starts_with p source ≡ false
    → get p (kept_locks source locks) ≡ get p locks
unfolding kept_locks
get-kept p source [] h = refl
get-kept p source ((q, l) ∷ locks) h = ground (arith, path_eq_iff q p, get-kept p source locks)

get-moved :
    (p source destination : FilePath) (locks : LockState)
    → starts_with p destination ≡ false
    → get p (moved_locks source destination locks) ≡ none
unfolding moved_locks
get-moved p source destination [] h = refl
get-moved p source destination ((q, l) ∷ locks) h = elim (Option-cases (strip_path source q)) [
  | inl e ↦ rw (e, moved_locks) (get-moved p source destination locks h)
  | inr (suffix, e) ↦
      rw (e, moved_locks)
        (ground (
          arith,
          path_eq_iff (destination ++ suffix) p,
          strip_path-append destination suffix,
          get-moved p source destination locks,
        ))
]

-- A lock that is neither at or below the source nor at or below the destination stays as it is.
pub get-move_locks :
    (now : ℕ) (locks : LockState) (source destination p : FilePath)
    → starts_with p source ≡ false
    → starts_with p destination ≡ false
    → get p (move_locks now locks source destination) ≡ get p (prune_locks now locks)
unfolding move_locks
get-move_locks now locks source destination p h k =
    let pruned = prune_locks now locks in
    get-extend p (kept_locks source pruned) _ (get-moved p source destination pruned k)
    ∙ get-kept p source pruned h

-- With distinct paths a moved entry is found under its new path.
get-extend-some :
    (p : FilePath) (l : Lock) (locks moved : LockState)
    → Exclusive moved
    → get p moved ≡ some l
    → get p (extend locks moved) ≡ some l
unfolding extend
get-extend-some p l locks [] x h = absurd (ground arith)
get-extend-some p l locks ((q, k) ∷ moved) (x, xs) h = elim (Bool-cases (path_eq q p)) [
  | inl e ↦
      let same = (path_eq_iff q p).0 e in
      let gone : get p moved ≡ none =
        get-any_related p moved (subst (λ r. any_related r moved ≡ false) same x) in
      get-extend p (insert q k locks) moved gone ∙ (get-insert p q k locks ∙ rw e (rw e at h))
  | inr e ↦ get-extend-some p l (insert q k locks) moved xs (rw e at h)
]

related-append : (b s t : FilePath) → related (b ++ s) (b ++ t) ≡ related s t
related-append b s t = rw (starts_with-append_append b s t, starts_with-append_append b t s) refl

-- Below the destination the moved entries are related as they were below the source.
any_related-moved :
    (source destination s : FilePath) (locks : LockState)
    → any_related (source ++ s) locks ≡ false
    → any_related (destination ++ s) (moved_locks source destination locks) ≡ false
unfolding any_related moved_locks
any_related-moved source destination s [] h = refl
any_related-moved source destination s ((q, l) ∷ locks) h =
    elim (Option-cases (strip_path source q)) [
      | inl e ↦ rw (e, moved_locks) (any_related-moved source destination s locks (ground arith))
      | inr (t, e) ↦
          let same = strip_path_sound source q t e in
          let ih = any_related-moved source destination s locks (ground arith) in
          let apart : related (source ++ s) q ≡ false = ground arith in
          let apart' : related (source ++ s) (source ++ t) ≡ false = rw same at apart in
          let below : related (destination ++ s) (destination ++ t) ≡ false =
            related-append destination s t ∙ (sym (related-append source s t) ∙ apart') in
          rw (e, moved_locks) (ground arith)
    ]

moved_locks-Exclusive :
    (source destination : FilePath) (locks : LockState)
    → Exclusive locks
    → Exclusive (moved_locks source destination locks)
unfolding moved_locks
moved_locks-Exclusive source destination [] h = tt
moved_locks-Exclusive source destination ((q, l) ∷ locks) (h, hs) =
    let ih = moved_locks-Exclusive source destination locks hs in
    elim (Option-cases (strip_path source q)) [
      | inl e ↦ rw (e, moved_locks) ih
      | inr (t, e) ↦
          rw (e, moved_locks)
            (
              any_related-moved source destination t locks
                  (subst (λ r. any_related r locks ≡ false) (strip_path_sound source q t e) h),
              ih,
            )
    ]

get-moved-some :
    (source destination s : FilePath) (l : Lock) (locks : LockState)
    → get (source ++ s) locks ≡ some l
    → get (destination ++ s) (moved_locks source destination locks) ≡ some l
unfolding moved_locks
get-moved-some source destination s l [] h = ground arith
get-moved-some source destination s l ((q, k) ∷ locks) h =
    elim (Option-cases (strip_path source q)) [
      | inl e ↦
          rw (e, moved_locks)
            (get-moved-some source destination s l locks
              (ground (arith, path_eq_iff q (source ++ s), strip_path-append source s)))
      | inr (t, e) ↦
          let same = strip_path_sound source q t e in
          let ih = get-moved-some source destination s l locks in
          let h' : get (source ++ s) ((source ++ t, k) ∷ locks) ≡ some l = rw same at h in
          rw (e, moved_locks)
            (ground (arith, path_eq-append source t s, path_eq-append destination t s, ih))
    ]

-- A move keeps the table exclusive, if none of the locks that stay is related to the destination.
pub move_locks-Exclusive :
    (now : ℕ) (locks : LockState) (source destination : FilePath)
    → Exclusive locks
    → any_related destination (kept_locks source (prune_locks now locks)) ≡ false
    → Exclusive (move_locks now locks source destination)
unfolding move_locks
move_locks-Exclusive now locks source destination h k =
    let pruned = prune_locks now locks in
    let x = prune_locks-Exclusive now locks h in
    extend-Exclusive (kept_locks source pruned) (moved_locks source destination pruned)
      (kept_locks-Exclusive source pruned x) (moved_locks-Exclusive source destination pruned x)
      (moved_locks-Apart _ source destination pruned k)

-- A lock at or below the source that has not expired is found at the same place below the
-- destination after the move, in an exclusive table.
pub get-move_locks_moved :
    (now : ℕ) (locks : LockState) (source destination suffix : FilePath) (l : Lock)
    → Exclusive locks
    → get (source ++ suffix) (prune_locks now locks) ≡ some l
    → get (destination ++ suffix) (move_locks now locks source destination) ≡ some l
unfolding move_locks
get-move_locks_moved now locks source destination suffix l h k =
    let pruned = prune_locks now locks in
    get-extend-some _ l (kept_locks source pruned) (moved_locks source destination pruned)
      (moved_locks-Exclusive source destination pruned (prune_locks-Exclusive now locks h))
      (get-moved-some source destination suffix l pruned k)
