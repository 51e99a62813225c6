-- ===== src/Dav/Locks/Permits.antt =====
-- What `lock_permits` of src/web/dav.rs asks of a request, and what a LOCK request gets.
use ii.Prelude.{
  ℕ, ◌<◌, ◌≡◌, ◌↔◌, ◌⊎◌, refl, true, false, not, ◌&&◌, none, some, [], ◌∷◌, arith, ltb,
  if◌then◌else◌, Bool-cases, Option-cases, inl, inr,
}
use ii.Prelude.Text.{Str}
use ii.Http.Request.{WebRequest}
use ii.Dav.Path.{FilePath, path_eq}
use ii.Dav.Path.Prefix.{path_eq_iff, path_eq_refl}
use ii.Dav.Locks.{
  Lock, LockState, get, remove, insert, prune_locks, related, any_related, all_presented,
  lock_permits, acquire, request_presents_lock,
}

-- The table has this entry.
abbrev pub Entry : FilePath → Lock → LockState → Type 0
Entry p l [] = ⊥
Entry p l ((q, k) ∷ locks) = ((q ≡ p) × (k ≡ l)) ⊎ Entry p l locks

-- A lock in the table that has not expired, lies at, above or below the target, and is not
-- presented by the request.
abbrev pub Blocks : ℕ → FilePath → WebRequest → LockState → FilePath → Lock → Type 0
Blocks now target request locks p l =
    Entry p l locks
    × (now < l.expires)
    × (related target p ≡ true)
    × (request_presents_lock l request ≡ false)

blocked_sound :
    (now : ℕ) (target : FilePath) (request : WebRequest) (locks : LockState)
    → all_presented target request (prune_locks now locks) ≡ false
    → (p : FilePath) × (l : Lock) × Blocks now target request locks p l
unfolding all_presented prune_locks
blocked_sound now target request [] h = absurd (ground arith)
blocked_sound now target request ((q, k) ∷ locks) h =
    elim (Bool-cases
      (ltb now k.expires && related target q && not (request_presents_lock k request))) [
        | inl e ↦ (q, k, (inl (refl, refl), ground arith, ground arith, ground arith))
        | inr e ↦
            let (p, l, b) = blocked_sound now target request locks (ground arith) in
            (p, l, (inr b.0, b.1, b.2, b.3))
      ]

blocked_complete :
    (now : ℕ) (target : FilePath) (request : WebRequest) (locks : LockState) (p : FilePath)
    (l : Lock)
    → Blocks now target request locks p l
    → all_presented target request (prune_locks now locks) ≡ false
unfolding all_presented prune_locks
blocked_complete now target request [] p l (e, live, r, n) = absurd e
blocked_complete now target request ((q, k) ∷ locks) p l (inl (e, f), live, r, n) = ground arith
blocked_complete now target request ((q, k) ∷ locks) p l (inr e, live, r, n) =
    ground (arith, blocked_complete now target request locks p l (e, live, r, n))

-- A request is refused exactly if the table has a lock that has not expired, lies at, above or
-- below the target, and is not presented by the request.
pub lock_permits_iff :
    (now : ℕ) (locks : LockState) (target : FilePath) (request : WebRequest)
    → ((lock_permits now locks target request).1 ≡ false)
      ↔ ((p : FilePath) × (l : Lock) × Blocks now target request locks p l)
unfolding lock_permits
lock_permits_iff now locks target request = (
  blocked_sound now target request locks,
  λ b. blocked_complete now target request locks b.0 b.1 b.2,
)

pub lock_permits_locks :
    (now : ℕ) (locks : LockState) (target : FilePath) (request : WebRequest)
    → (lock_permits now locks target request).0 ≡ prune_locks now locks
unfolding lock_permits
lock_permits_locks now locks target request = refl

pub get-remove :
    (p q : FilePath) (locks : LockState)
    → path_eq q p ≡ false
    → get p (remove q locks) ≡ get p locks
get-remove p q [] h = refl
get-remove p q ((r, k) ∷ locks) h =
    ground (arith, path_eq_iff r q, path_eq_iff r p, path_eq_iff q p, get-remove p q locks)

get-remove_self : (p : FilePath) (locks : LockState) → get p (remove p locks) ≡ none
get-remove_self p [] = refl
get-remove_self p ((r, k) ∷ locks) = ground (arith, get-remove_self p locks)

pub get-insert :
    (p q : FilePath) (l : Lock) (locks : LockState)
    → get p (insert q l locks) ≡ (if path_eq q p then some l else get p locks)
get-insert p q l locks = ground (arith, get-remove p q locks)

-- What a successful LOCK does. Either the target had a lock that the request presents, and keeps
-- its token, or no lock of the table is related to the target, and the token is the fresh one; in
-- both cases the target is locked with the token until the given instant, and the entry of any other
-- path is what it was, less what has expired.
pub acquire_granted :
    (now : ℕ) (locks : LockState) (target : FilePath) (request : WebRequest) (until : ℕ)
    (fresh token : Str) (other : FilePath)
    → (acquire now locks target request until fresh).1 ≡ some token
    → path_eq target other ≡ false
    → (get target (acquire now locks target request until fresh).0
        ≡ some (record { token = token; expires = until }))
      × (get other (acquire now locks target request until fresh).0
          ≡ get other (prune_locks now locks))
      × (((token ≡ fresh) × (any_related target (prune_locks now locks) ≡ false))
          ⊎ ((l : Lock) × (get target (prune_locks now locks) ≡ some l)
              × (l.token ≡ token)
              × (request_presents_lock l request ≡ true)))
unfolding acquire
acquire_granted now locks target request until fresh token other h k =
    let pruned = prune_locks now locks in
    elim (Option-cases (get target pruned)) [
      | inl e ↦ elim (Bool-cases (any_related target pruned)) [
        | inl f ↦ absurd (ground arith)
        | inr f ↦ (
          ground (arith, path_eq_refl target),
          ground (arith, get-remove other target pruned),
          inl (ground arith, f),
        )
      ]
      | inr (l, e) ↦ elim (Bool-cases (request_presents_lock l request)) [
        | inl f ↦ (
          ground (arith, path_eq_refl target),
          ground (arith, get-remove other target pruned),
          inr (l, e, ground arith, f),
        )
        | inr f ↦ absurd (ground arith)
      ]
    ]
