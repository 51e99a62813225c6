-- ===== src/Azure/Service/Progress.antt =====
-- When the upload of src/backend/azure.rs gets to its end.
use Prim.Native.Nat.{min}
use ii.Prelude.{
  ℕ, ◌+◌, ◌-◌, ◌*◌, ◌≤◌, ◌≡◌, suc, zero, Option, none, some, List, [], ◌∷◌, ◌++◌, true, arith, take,
  drop, refl, ap, ◌∙◌, inl, inr, Bool-cases, leb,
}
use ii.Prelude.Text.{Str, Bytes}
use ii.Azure.{
  Request, Remote, block_request, list_request, block_id, ensure_success, checked, put_block,
  put_blocks, put_block_list, commit_blocks, put_empty_blob, upload_source, block_size, max_blocks,
  max_block_bytes,
}
use ii.Azure.Blocks.{block_size-Fits, block_size-refused}

module _ {W : Type 0} (remote : Remote W)
    (accepts : (w : W) (request : Request)
      → (v : W) × (status : ℕ) × (remote.request w request ≡ (v, some status))
        × (ensure_success status ≡ true))
    (opens : (w : W) → (file : Bytes) × (remote.open_source w ≡ some file)) where
  checked-accepts :
      (w : W) (request : Request) → (v : W) × (checked (remote.request w request) ≡ (v, true))
  checked-accepts w request =
      let (v, status, answer, good) = accepts w request in
      (v, ap checked answer ∙ ap (λ b. (v, b)) good)

  put_block-sent :
      (w : W) (key id : Str) (offset n : ℕ)
      → (v : W) × (put_block remote w key id offset n ≡ (v, true))
  unfolding put_block
  put_block-sent w key id offset n =
      let (file, g) = opens w in
      let (v, sent) = checked-accepts w (block_request key id (take n (drop offset file)) n) in
      (v, rw (g, put_block) sent)

  put_blocks-finishes :
      (fuel : ℕ) (w : W) (key : Str) (size index offset remaining : ℕ) (before : List Str)
      → remaining ≤ size * fuel
      → 1 ≤ size
      → (v : W) × (ids : List Str) × (put_blocks remote fuel w key size index offset remaining
            before
          ≡ (v, some ids))
  unfolding put_blocks
  put_blocks-finishes fuel w key size index offset zero before h pos = (w, before, refl)
  put_blocks-finishes zero w key size index offset (suc r) before h pos = absurd (omega arith)
  put_blocks-finishes (suc fuel) w key size index offset (suc r) before h pos =
      let n = min (suc r) size in
      let (u, sent) = put_block-sent w key (block_id remote index) offset n in
      let (v, ids, rest) =
        put_blocks-finishes fuel u key size (index + 1) (offset + n) (suc r - n)
          (before ++ block_id remote index ∷ []) (omega arith) pos in
      (v, ids, rw sent rest)

  commit_blocks-sent :
      (key : Str) (r : W × Option (List Str)) (u : W) (ids : List Str)
      → r ≡ (u, some ids)
      → (v : W) × (commit_blocks remote key r ≡ (v, true))
  unfolding commit_blocks put_block_list
  commit_blocks-sent key (w, none) u ids e = absurd (ground arith)
  commit_blocks-sent key (w, some block_ids) u ids e =
      checked-accepts w (list_request key block_ids)

  upload_source-sent :
      (w : W) (key : Str) (n size : ℕ)
      → block_size (suc n) ≡ some size
      → suc n ≤ size * max_blocks
      → 1 ≤ size
      → (v : W) × (upload_source remote w key (suc n) ≡ (v, true))
  unfolding upload_source
  upload_source-sent w key n size g room pos =
      let (u, ids, done) = put_blocks-finishes max_blocks w key size 0 0 (suc n) [] room pos in
      let (v, sent) = commit_blocks-sent key _ u ids done in (v, rw (g, upload_source) sent)

  -- If every request is answered with success and the source can be opened each time, then the
  -- upload of a file of any size ends: it succeeds exactly if the size is at most 50,000 blocks of
  -- 4,000 MiB.
  pub upload_source_succeeds :
      (w : W) (key : Str) (size : ℕ)
      → (v : W) × (upload_source remote w key size ≡ (v, leb size (max_block_bytes * max_blocks)))
  unfolding upload_source put_empty_blob
  upload_source_succeeds w key zero = checked-accepts w _
  upload_source_succeeds w key (suc n) =
      elim (Bool-cases (leb (suc n) (max_block_bytes * max_blocks))) [
        | inl fits ↦
            let (size, g, room, least, most) = block_size-Fits (suc n) (ground arith) in
            let (v, sent) = upload_source-sent w key n size g room (omega arith) in
            (v, rw fits sent)
        | inr over ↦ (w, rw (over, block_size-refused (suc n) (ground arith), upload_source) refl)
      ]
