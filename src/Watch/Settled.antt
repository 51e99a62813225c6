-- ===== src/Watch/Settled.antt =====
-- When src/service/watch.rs sends a file. A history is the list of the rounds, the last one first.
use ii.Prelude.{
  ℕ, ◌-◌, ◌≤◌, ◌≡◌, ◌≢◌, ◌⊎◌, refl, sym, subst, ap, ◌∙◌, true, false, Option, none, some, List, [],
  ◌∷◌, leb, is_some_and, arith, Bool-cases, inl, inr,
}
use ii.Prelude.Text.{Str}
use ii.Watch.{FileStamp, stamp_eq, get, Files, WatchState, entry_of, round}
use ii.Watch.Each.{FileWatch, settle_one, Distinct}

abbrev pub History : Type 0
History = List (ℕ × Files)

-- The state after the rounds of a history; `first` is the scan before the loop.
unfoldable pub after : ℕ → Files → History → WatchState
after stabilize first [] = record { seen = first; pending = []; jobs = [] }
after stabilize first ((now, current) ∷ older) =
    round now stabilize current (after stabilize first older)

abbrev pub AllDistinct : History → Type 0
AllDistinct [] = Unit
AllDistinct ((now, current) ∷ older) = Distinct current × AllDistinct older

-- The path had the stamp in the round of time `t`, and was there in every round since then, with
-- this stamp or with the one that was sent last.
abbrev Since : Str → Option FileStamp → FileStamp → ℕ → History → Type 0
Since p last stamp t [] = ⊥
Since p last stamp t ((now, current) ∷ older) =
    ((get p current ≡ some stamp) × (now ≡ t))
    ⊎ (((get p current ≡ some stamp)
          ⊎ (((there : FileStamp) × (get p current ≡ some there) × (last ≡ some there))))
        × Since p last stamp t older)

-- A round that finds the file with a stamp other than the one that was sent last, where an earlier
-- round, at least `stabilize` before, has found it with this stamp, and every round since then has
-- found it, with this stamp or with the one that was sent last.
abbrev pub HasSettled : ℕ → Str → Option FileStamp → ℕ → Files → History → Type 0
HasSettled stabilize p last now current older =
    (stamp : FileStamp) × (t : ℕ) × (get p current ≡ some stamp)
    × (last ≢ some stamp)
    × (stabilize ≤ now - t)
    × Since p last stamp t ((now, current) ∷ older)

stamp_eq_sound : (a b : FileStamp) → stamp_eq a b ≡ true → a ≡ b
stamp_eq_sound a b h = ground arith

module _ (stabilize : ℕ) (p : Str) where
  -- What waits has waited since its round.
  abbrev Waits : FileWatch → History → Type 0
  Waits w history =
      (stamp : FileStamp) (t : ℕ) → w.pending ≡ some (stamp, t) → Since p w.seen stamp t history

  entry_since :
      (now : ℕ) (current : Files) (older : History) (stamp : FileStamp) (last : Option FileStamp)
      (pending : Option (FileStamp × ℕ))
      → ((s : FileStamp) (t : ℕ) → pending ≡ some (s, t) → Since p last s t older)
      → get p current ≡ some stamp
      → ((entry_of now stamp pending).0 ≡ stamp)
        × Since p last stamp (entry_of now stamp pending).1 ((now, current) ∷ older)
  entry_since now current older stamp last none h e = (refl, inl (e, refl))
  entry_since now current older stamp last (some (old, since)) h e =
      elim (Bool-cases (stamp_eq old stamp)) [
        | inr f ↦ rw f (refl, inl (e, refl))
        | inl f ↦
            let same = stamp_eq_sound old stamp f in
            let kept : entry_of now stamp (some (old, since)) ≡ (old, since) = rw f refl in
            subst
              (λ (q : FileStamp × ℕ).
                (q.0 ≡ stamp) × Since p last stamp q.1 ((now, current) ∷ older))
              (sym kept)
              (same, inr (inl e, subst (λ s. Since p last s since older) same (h old since refl)))
      ]

  last_sent :
      (last : Option FileStamp) (stamp : FileStamp)
      → is_some_and last (λ previous. stamp_eq previous stamp) ≡ true
      → last ≡ some stamp
  last_sent none stamp h = absurd (ground arith)
  last_sent (some previous) stamp h = ap (λ s. some s) (stamp_eq_sound previous stamp h)

  module _ (now : ℕ) (current : Files) (older : History) (w : FileWatch) (h : Waits w older) where
    abbrev due : FileStamp → FileStamp × ℕ
    due stamp = entry_of now stamp w.pending

    waiting :
        (stamp : FileStamp)
        → get p current ≡ some stamp
        → (s : FileStamp) (t : ℕ) → some (due stamp) ≡ some (s, t)
        → Since p w.seen s t ((now, current) ∷ older)
    waiting stamp g s t e =
        let history = (now, current) ∷ older in
        let (same, since) = entry_since now current older stamp w.seen w.pending h g in
        let first : due stamp ≡ (s, t) = cc in
        let named : stamp ≡ s = sym same ∙ ap (λ (q : FileStamp × ℕ). q.0) first in
        let timed : (due stamp).1 ≡ t = ap (λ (q : FileStamp × ℕ). q.1) first in
        subst (λ k. Since p w.seen s k history) timed
          (subst (λ k. Since p w.seen k (due stamp).1 history) named since)

    -- A round in which the file is there: it is left alone, sent, or waits.
    there :
        (stamp : FileStamp)
        → get p current ≡ some stamp
        → Waits
            (settle_one now stabilize stamp (record w { sent = false }))
            ((now, current) ∷ older)
    unfolding settle_one
    there stamp g =
        let history = (now, current) ∷ older in
        let begun : FileWatch = record w { sent = false } in
        elim (Bool-cases (is_some_and w.seen (λ previous. stamp_eq previous stamp))) [
          | inl old ↦
              let same : settle_one now stabilize stamp begun ≡ begun = rw old refl in
              subst (λ q. Waits q history) (sym same)
                (λ s t e. inr (inr (stamp, g, last_sent w.seen stamp old), h s t e))
          | inr new ↦ elim (Bool-cases (leb stabilize (now - (due stamp).1))) [
            | inl ready ↦
                let sends : (settle_one now stabilize stamp begun).pending ≡ none =
                  rw new (rw ready refl) in
                λ s t e. absurd (ground arith)
            | inr early ↦
                let waits : settle_one now stabilize stamp begun
                    ≡ record begun { pending = some (due stamp) } =
                  rw new (rw early refl) in
                subst (λ q. Waits q history) (sym waits) (waiting stamp g)
          ]
        ]
