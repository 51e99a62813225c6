-- ===== src/Azure/Service.antt =====
-- What the upload of src/backend/azure.rs relies on: the documented behaviour of a block blob
-- service, and of base64.
pub mod Committed
pub mod Progress
use ii.Prelude.{
  ℕ, ◌+◌, ◌*◌, ◌/◌, ◌%◌, ◌^◌, ◌≤◌, ◌<◌, ◌≡◌, ◌≢◌, suc, zero, Option, none, some, List, [], ◌∷◌,
  ◌++◌, map, true,
}
use ii.Prelude.Text.{Str, Bytes}
use ii.Azure.{Request, Remote, block_request, list_request, blob_request, block_id, ensure_success}

module _ {W : Type 0} (remote : Remote W) (staged : W → Str → Str → Option Bytes) where
  -- The blocks that wait under the key, by number, and what each of them holds.
  abbrev pub Staged : W → Str → List ℕ → List Bytes → Type 0
  Staged w key [] [] = Unit
  Staged w key [] (piece ∷ pieces) = ⊥
  Staged w key (i ∷ is) [] = ⊥
  Staged w key (i ∷ is) (piece ∷ pieces) =
      (staged w key (block_id remote i) ≡ some piece) × Staged w key is pieces

abbrev pub concat : List Bytes → Bytes
concat [] = []
concat (piece ∷ pieces) = piece ++ concat pieces

-- Put Block keeps the bytes under the name until a Put Block List takes the blocks that it names,
-- in its order, for the contents of the blob; Put Blob replaces the contents.
pub record IsBlobService {W : Type 0} (remote : Remote W) (staged : W → Str → Str → Option Bytes)
    (blob : W → Str → Option Bytes) : Type 0 where
  pub base64_injective : (b c : Bytes) → remote.base64 b ≡ remote.base64 c → b ≡ c
  pub keeps_block :
      (w v : W) (key id : Str) (body : Bytes) (size status : ℕ)
      → remote.request w (block_request key id body size) ≡ (v, some status)
      → ensure_success status ≡ true
      → staged v key id ≡ some body
  pub keeps_others :
      (w v : W) (key id other : Str) (body : Bytes) (size status : ℕ)
      → remote.request w (block_request key id body size) ≡ (v, some status)
      → ensure_success status ≡ true
      → other ≢ id
      → staged v key other ≡ staged w key other
  pub commits :
      (w v : W) (key : Str) (is : List ℕ) (pieces : List Bytes) (status : ℕ)
      → Staged remote staged w key is pieces
      → remote.request w (list_request key (map (block_id remote) is)) ≡ (v, some status)
      → ensure_success status ≡ true
      → blob v key ≡ some (concat pieces)
  pub empties :
      (w v : W) (key : Str) (status : ℕ)
      → remote.request w (blob_request key) ≡ (v, some status)
      → ensure_success status ≡ true
      → blob v key ≡ some []
