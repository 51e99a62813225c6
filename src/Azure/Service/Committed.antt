-- ===== src/Azure/Service/Committed.antt =====
-- What a finished upload of src/backend/azure.rs leaves in the blob.
use Prim.Native.Nat.{min}
use ii.Prelude.{
  ℕ, ◌+◌, ◌-◌, ◌^◌, ◌≤◌, ◌<◌, ◌≡◌, ◌≢◌, suc, zero, Option, none, some, List, [], ◌∷◌, ◌++◌, map,
  true, false, Bool, arith, All, All-append, take, drop, length, refl, ap, sym, ◌∙◌, inl, inr,
  Option-cases, append_assoc, append-nil,
}
use ii.Prelude.Text.{Str, Bytes}
use ii.Azure.{
  Remote, block_request, block_id, ensure_success, checked, if_sent, put_block, put_blocks,
  put_block_list, commit_blocks, put_empty_blob, upload_source, block_size, max_blocks,
}
use ii.Azure.Blocks.{be_bytes_injective}
use ii.Azure.Service.{Staged, concat, IsBlobService}

checked_inverse :
    {W : Type 0} (w v : W) (answer : W × Option ℕ)
    → checked answer ≡ (v, true)
    → (status : ℕ) × (answer ≡ (v, some status)) × (ensure_success status ≡ true)
checked_inverse w v (u, none) e = absurd (ground arith)
checked_inverse w v (u, some status) e = (status, ground arith, ground arith)

if_sent_inverse :
    {W : Type 0} (r : W × Bool) (next : W → W × Option (List Str)) (v : W) (ids : List Str)
    → if_sent r next ≡ (v, some ids)
    → (u : W) × (r ≡ (u, true)) × (next u ≡ (v, some ids))
if_sent_inverse (u, true) next v ids e = (u, refl, e)
if_sent_inverse (u, false) next v ids e = absurd (ground arith)

earlier : (index : ℕ) (is : List ℕ) → All (λ i. i < index) is → All (λ i. i < index + 1) is
earlier index [] h = tt
earlier index (i ∷ is) (b, h) = (omega arith, earlier index is h)

map-snoc : (f : ℕ → Str) (is : List ℕ) (i : ℕ) → map f (is ++ i ∷ []) ≡ map f is ++ f i ∷ []
map-snoc f [] i = refl
map-snoc f (j ∷ is) i = ap (λ t. f j ∷ t) (map-snoc f is i)

concat-append : (xs ys : List Bytes) → concat (xs ++ ys) ≡ concat xs ++ concat ys
concat-append [] ys = refl
concat-append (x ∷ xs) ys = rw (concat-append xs ys) (sym (append_assoc x (concat xs) (concat ys)))

take-more : (m n p : ℕ) (xs : Bytes) → p ≡ m + n → take m xs ++ take n (drop m xs) ≡ take p xs
take-more zero n p xs e = ap (λ k. take k xs) (omega arith)
take-more (suc m) zero zero [] e = refl
take-more (suc m) (suc n) zero [] e = absurd (omega arith)
take-more (suc m) zero (suc p) [] e = refl
take-more (suc m) (suc n) (suc p) [] e = refl
take-more (suc m) n zero (x ∷ xs) e = absurd (omega arith)
take-more (suc m) n (suc p) (x ∷ xs) e = ap (λ t. x ∷ t) (take-more m n p xs (omega arith))

take-all : (n : ℕ) (xs : Bytes) → n ≡ length xs → take n xs ≡ xs
take-all zero [] e = refl
take-all zero (x ∷ xs) e = absurd (omega arith)
take-all (suc n) [] e = absurd (omega arith)
take-all (suc n) (x ∷ xs) e = ap (λ t. x ∷ t) (take-all n xs (omega arith))

module _ {W : Type 0} (remote : Remote W) (staged : W → Str → Str → Option Bytes)
    (blob : W → Str → Option Bytes) (service : IsBlobService remote staged blob) (key : Str) where
  block_id_injective :
      (i j : ℕ) → i < 256 ^ 8 → j < 256 ^ 8 → i ≢ j → block_id remote i ≢ block_id remote j
  unfolding block_id
  block_id_injective i j h k different e =
      different (be_bytes_injective 8 i j [] [] h k (service.base64_injective _ _ e)).0

  Staged-keeps :
      (w v : W) (is : List ℕ) (pieces : List Bytes)
      → All (λ i. staged v key (block_id remote i) ≡ staged w key (block_id remote i)) is
      → Staged remote staged w key is pieces
      → Staged remote staged v key is pieces
  Staged-keeps w v [] [] k h = tt
  Staged-keeps w v [] (piece ∷ pieces) k h = h
  Staged-keeps w v (i ∷ is) [] k h = h
  Staged-keeps w v (i ∷ is) (piece ∷ pieces) (a, k) (b, h) = (a ∙ b, Staged-keeps w v is pieces k h)

  Staged-append :
      (w : W) (is : List ℕ) (pieces : List Bytes) (i : ℕ) (piece : Bytes)
      → Staged remote staged w key is pieces
      → staged w key (block_id remote i) ≡ some piece
      → Staged remote staged w key (is ++ i ∷ []) (pieces ++ piece ∷ [])
  Staged-append w [] [] i piece h e = (e, tt)
  Staged-append w [] (p ∷ pieces) i piece h e = absurd h
  Staged-append w (j ∷ is) [] i piece h e = absurd h
  Staged-append w (j ∷ is) (p ∷ pieces) i piece (a, h) e =
      (a, Staged-append w is pieces i piece h e)

  others :
      (w v : W) (index : ℕ) (body : Bytes) (n status : ℕ) (is : List ℕ)
      → remote.request w (block_request key (block_id remote index) body n) ≡ (v, some status)
      → ensure_success status ≡ true
      → index < 256 ^ 8
      → All (λ i. i < index) is
      → All (λ i. staged v key (block_id remote i) ≡ staged w key (block_id remote i)) is
  others w v index body n status [] e s h below = tt
  others w v index body n status (i ∷ is) e s h (b, below) = (
    service.keeps_others w v key _ _ body n status e s
        (block_id_injective i index (omega arith) h (λ same. absurd (omega arith))),
    others w v index body n status is e s h below,
  )

  module _ (file : Bytes)
      (opens : (w : W) (f : Bytes) → remote.open_source w ≡ some f → f ≡ file) where
    put_block_lem :
        (w v : W) (id : Str) (offset n : ℕ)
        → put_block remote w key id offset n ≡ (v, true)
        → (status : ℕ) × (remote.request w (block_request key id (take n (drop offset file)) n)
            ≡ (v, some status))
          × (ensure_success status ≡ true)
    unfolding put_block
    put_block_lem w v id offset n e = elim (Option-cases (remote.open_source w)) [
      | inl g ↦ absurd (ground arith)
      | inr (f, g) ↦ let h = rw (g, put_block) at e in rw (← opens w f g) (checked_inverse w v _ h)
    ]

    commit_blocks_inverse :
        (r : W × Option (List Str)) (v : W)
        → commit_blocks remote key r ≡ (v, true)
        → (u : W) × (ids : List Str) × (r ≡ (u, some ids))
          × (put_block_list remote u key ids ≡ (v, true))
    unfolding commit_blocks
    commit_blocks_inverse (u, none) v e = absurd (ground arith)
    commit_blocks_inverse (u, some ids) v e = (u, ids, refl, e)

    Done : W → List Str → Type 0
    Done v ids =
        (is : List ℕ) × (pieces : List Bytes) × (ids ≡ map (block_id remote) is)
        × Staged remote staged v key is pieces
        × (concat pieces ≡ file)

    put_blocks-step :
        (fuel : ℕ) (w v : W) (size index offset r : ℕ) (before ids : List Str)
        → put_blocks remote (suc fuel) w key size index offset (suc r) before ≡ (v, some ids)
        → (u : W) × (put_block remote w key (block_id remote index) offset (min (suc r) size)
            ≡ (u, true))
          × (put_blocks remote fuel u key size
                (index + 1)
                (offset + min (suc r) size)
                (suc r - min (suc r) size)
                (before ++ block_id remote index ∷ [])
              ≡ (v, some ids))
    unfolding put_blocks
    put_blocks-step fuel w v size index offset r before ids e =
        if_sent_inverse (put_block remote w key (block_id remote index) offset (min (suc r) size)) _
          v ids e

    put_blocks-Done :
        (fuel : ℕ) (w v : W) (size index offset remaining : ℕ) (is : List ℕ) (pieces : List Bytes)
        (ids : List Str)
        → All (λ i. i < index) is
        → index + fuel ≤ 256 ^ 8
        → Staged remote staged w key is pieces
        → concat pieces ≡ take offset file
        → offset + remaining ≡ length file
        → put_blocks remote fuel w key size index offset remaining (map (block_id remote) is)
          ≡ (v, some ids)
        → Done v ids
    unfolding put_blocks Done
    put_blocks-Done fuel w v size index offset zero is pieces ids below room stage whole total e =
        let same : w ≡ v = ground arith in
        let named : map (block_id remote) is ≡ ids = ground arith in
        (is, pieces, sym named, rw (← same) stage, whole ∙ take-all offset file (omega arith))
    put_blocks-Done zero w v size index offset (suc r) is pieces ids below room stage whole total
          e =
        absurd (ground arith)
    put_blocks-Done (suc fuel) w v size index offset (suc r) is pieces ids below room stage whole
          total e =
        let n = min (suc r) size in
        let (u, sent, rest) = put_blocks-step fuel w v size index offset r _ ids e in
        let (status, answer, good) = put_block_lem w u (block_id remote index) offset n sent in
        put_blocks-Done fuel u v size (index + 1) (offset + n) (suc r - n) (is ++ index ∷ [])
          (pieces ++ take n (drop offset file) ∷ []) ids
          (All-append (λ i. i < index + 1) is _ (earlier index is below) (omega arith, tt))
          (omega arith)
          (Staged-append u is pieces index _
            (Staged-keeps w u is pieces
              (others w u index _ n status is answer good (omega arith) below) stage)
            (service.keeps_block w u key _ _ n status answer good))
          (concat-append pieces _
            ∙ rw (whole, append-nil (take (min (suc r) size) (drop offset file)))
                (take-more offset (min (suc r) size) (offset + min (suc r) size) file refl))
          (omega arith) (rw (map-snoc (block_id remote) is index) rest)

    no_bytes : (bytes : Bytes) → 0 ≡ length bytes → bytes ≡ []
    no_bytes [] e = refl
    no_bytes (b ∷ bytes) e = absurd (omega arith)

    commit_blocks-Done :
        (w v : W) (ids : List Str)
        → Done w ids
        → put_block_list remote w key ids ≡ (v, true)
        → blob v key ≡ some file
    unfolding put_block_list Done
    commit_blocks-Done w v ids (is, pieces, named, stage, whole) e =
        let (status, answer, good) = checked_inverse w v _ (rw named at e) in
        service.commits w v key is pieces status stage answer good ∙ ap some whole

    -- A finished upload leaves exactly the bytes of the source file in the blob, in their order, if
    -- the file does not change during the upload and its size is the one that the upload was given.
    pub upload_source_committed :
        (w v : W) (size : ℕ)
        → size ≡ length file
        → upload_source remote w key size ≡ (v, true)
        → blob v key ≡ some file
    unfolding upload_source put_empty_blob commit_blocks
    upload_source_committed w v zero whole e =
        let (status, answer, good) = checked_inverse w v _ e in
        service.empties w v key status answer good ∙ ap some (sym (no_bytes file whole))
    upload_source_committed w v (suc n) whole e = elim (Option-cases (block_size (suc n))) [
      | inl g ↦ let h = rw (g, upload_source) at e in absurd (ground arith)
      | inr (size, g) ↦
          let h = rw (g, upload_source) at e in
          let (u, ids, done, sent) = commit_blocks_inverse _ v h in
          commit_blocks-Done u v ids
            (put_blocks-Done max_blocks w u size 0 0 (suc n) [] [] ids tt (omega arith) tt refl
              (omega arith) done)
            sent
    ]
