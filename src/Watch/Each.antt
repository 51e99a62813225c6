-- ===== src/Watch/Each.antt =====
-- Each file that src/service/watch.rs watches goes its own way.
use ii.Prelude.{
  ℕ, ◌-◌, ◌≡◌, refl, ap, ◌∙◌, Bool, true, false, ◌||◌, Option, none, some, List, [], ◌∷◌, ◌++◌, any,
  if◌then◌else◌, leb, is_some, is_some_and, arith, Bool-cases, Option-cases, inl, inr,
}
use ii.Prelude.Text.{Str, str_eq, str_eq_iff, str_eq_sound}
use ii.Watch.{
  FileStamp, stamp_eq, get, insert, remove, Files, retain, WatchState, entry_of, settle, settle_all,
  round,
}

module _ {V : Type 0} where
  get-insert :
      (p path : Str) (new : V) (map : List (Str × V))
      → get p (insert path new map) ≡ (if str_eq path p then some new else get p map)
  unfolding get insert
  get-insert p path new [] = refl
  get-insert p path new ((q, v) ∷ map) =
      ground
        (arith, get-insert p path new map, str_eq_iff q path, str_eq_iff path p, str_eq_iff q p)

  get-remove :
      (p path : Str) (map : List (Str × V))
      → get p (remove path map) ≡ (if str_eq path p then none else get p map)
  unfolding get remove
  get-remove p path [] = ground arith
  get-remove p path ((q, v) ∷ map) =
      ground (arith, get-remove p path map, str_eq_iff q path, str_eq_iff path p, str_eq_iff q p)

  get-retain :
      (p : Str) (current : Files) (map : List (Str × V))
      → get p (retain current map) ≡ (if is_some (get p current) then get p map else none)
  unfolding get retain
  get-retain p current [] = ground arith
  get-retain p current ((q, v) ∷ map) = ground (arith, get-retain p current map, str_eq_iff q p)

-- What the loop knows of one file, and whether this round sends it.
pub record FileWatch : Type 0 where
  pub seen : Option FileStamp
  pub pending : Option (FileStamp × ℕ)
  pub sent : Bool

abbrev pub view : Str → WatchState → FileWatch
view p state = record {
  seen = get p state.seen;
  pending = get p state.pending;
  sent = any (λ q. str_eq q p) state.jobs;
}

-- A file that is there, and that has been scanned with the stamp.
unfoldable pub settle_one : ℕ → ℕ → FileStamp → FileWatch → FileWatch
settle_one now stabilize stamp w =
    if is_some_and w.seen (λ previous. stamp_eq previous stamp)
    then w
    else let entry = entry_of now stamp w.pending in
      if leb stabilize (now - entry.1)
      then record { seen = some stamp; pending = none; sent = true }
      else record w { pending = some entry }

-- A round, for one file.
unfoldable pub watch_file : ℕ → ℕ → Option FileStamp → FileWatch → FileWatch
watch_file now stabilize none w = record { seen = none; pending = none; sent = false }
watch_file now stabilize (some stamp) w = settle_one now stabilize stamp (record w { sent = false })

-- A scan has one stamp for each path.
abbrev pub Distinct : Files → Type 0
Distinct [] = Unit
Distinct ((path, stamp) ∷ files) = (get path files ≡ none) × Distinct files

any-append :
    (p path : Str) (jobs : List Str)
    → any (λ q. str_eq q p) (jobs ++ path ∷ []) ≡ (str_eq path p || any (λ q. str_eq q p) jobs)
any-append p path [] = refl
any-append p path (job ∷ jobs) = ground (arith, any-append p path jobs)

view_sent :
    (p path : Str) (stamp : FileStamp) (s : WatchState)
    → view p (record {
      seen = insert path stamp s.seen;
      pending = remove path s.pending;
      jobs = s.jobs ++ path ∷ [];
    })
      ≡ (if str_eq path p
          then record { seen = some stamp; pending = none; sent = true }
          else view p s)
view_sent p path stamp s = rw (get-insert p path stamp s.seen) (
    rw (get-remove p path s.pending) (
      rw (any-append p path s.jobs)
        (elim (Bool-cases (str_eq path p)) [ inl e ↦ rw e refl | inr e ↦ rw e refl ])))

view_waiting :
    (p path : Str) (entry : FileStamp × ℕ) (s : WatchState)
    → view p (record s { pending = insert path entry s.pending })
      ≡ (if str_eq path p then record (view p s) { pending = some entry } else view p s)
view_waiting p path entry s =
    rw (get-insert p path entry s.pending)
      (elim (Bool-cases (str_eq path p)) [ inl e ↦ rw e refl | inr e ↦ rw e refl ])

view-settle :
    (now stabilize : ℕ) (p path : Str) (stamp : FileStamp) (s : WatchState)
    → view p (settle now stabilize path stamp s)
      ≡ (if str_eq path p then settle_one now stabilize stamp (view p s) else view p s)
unfolding settle settle_one
view-settle now stabilize p path stamp s =
    let since = entry_of now stamp (get path s.pending) in
    elim (Bool-cases (is_some_and (get path s.seen) (λ previous. stamp_eq previous stamp))) [
      | inl old ↦ elim (Bool-cases (str_eq path p)) [
        | inr e ↦ rw old (rw e refl)
        | inl e ↦
            let same : path ≡ p = str_eq_sound path p e in rw old (rw e (rw (rw same at old) refl))
      ]
      | inr new ↦ elim (Bool-cases (leb stabilize (now - since.1))) [
        | inl ready ↦ rw new (
            rw ready (
              view_sent p path stamp s ∙ elim (Bool-cases (str_eq path p)) [
                | inr e ↦ rw e refl
                | inl e ↦
                    let same : path ≡ p = str_eq_sound path p e in
                    rw e (rw (rw same at new) (rw (rw same at ready) refl))
              ]))
        | inr early ↦ rw new (
            rw early (
              view_waiting p path since s ∙ elim (Bool-cases (str_eq path p)) [
                | inr e ↦ rw e refl
                | inl e ↦
                    let same : path ≡ p = str_eq_sound path p e in
                    rw e (rw (rw same at new) (rw (rw same at early) (rw same refl)))
              ]))
      ]
    ]

abbrev settle_maybe : ℕ → ℕ → Option FileStamp → FileWatch → FileWatch
settle_maybe now stabilize none w = w
settle_maybe now stabilize (some stamp) w = settle_one now stabilize stamp w

view-settle_all :
    (now stabilize : ℕ) (p : Str) (files : Files) (s : WatchState)
    → Distinct files
    → view p (settle_all now stabilize files s)
      ≡ settle_maybe now stabilize (get p files) (view p s)
unfolding settle_all get
view-settle_all now stabilize p [] s d = refl
view-settle_all now stabilize p ((path, stamp) ∷ files) s (fresh, d) =
    let ih = view-settle_all now stabilize p files (settle now stabilize path stamp s) d in
    let one = view-settle now stabilize p path stamp s in
    elim (Bool-cases (str_eq path p)) [
      | inl e ↦
          let same : path ≡ p = str_eq_sound path p e in
          rw e (rw (rw same at fresh) at ih ∙ (rw e at one))
      | inr e ↦ rw e (ih ∙ ap (λ w. settle_maybe now stabilize (get p files) w) (rw e at one))
    ]

-- The loop over the maps does for each path, and whatever the other paths do, what the rules for one
-- file say: a file that the scan has not found is forgotten and not sent; one that was sent with this
-- stamp is left alone; one with another stamp waits, from the round that saw the stamp first, and is
-- sent by the first round that comes at least `stabilize` later.
pub view-round :
    (now stabilize : ℕ) (p : Str) (current : Files) (s : WatchState)
    → Distinct current
    → view p (round now stabilize current s) ≡ watch_file now stabilize (get p current) (view p s)
unfolding round watch_file
view-round now stabilize p current s d =
    let begun : WatchState = record s { jobs = [] } in
    let all = view-settle_all now stabilize p current begun d in
    let end = settle_all now stabilize current begun in
    elim (Option-cases (get p current)) [
      | inl e ↦
          let idle : any (λ q. str_eq q p) end.jobs ≡ false =
            ap (λ (w : FileWatch). w.sent) (rw e at all) in
          rw (get-retain p current end.seen)
            (rw (get-retain p current end.pending) (rw e (rw idle refl)))
      | inr (stamp, e) ↦
          rw (get-retain p current end.seen)
            (rw (get-retain p current end.pending) (rw e (rw e at all)))
    ]
