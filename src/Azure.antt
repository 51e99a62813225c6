-- ===== src/Azure.antt =====
-- The upload of a file in src/backend/azure.rs: a blob is sent block by block, and a last request
-- names the blocks in their order. The storage service, its URLs and base64 belong to libraries and
-- to other hosts.
pub mod Blocks
pub mod Service
mod Tests
use Prim.Native.Nat.{max, min}
use ii.Prelude.{
  length, ℕ, ◌+◌, ◌-◌, ◌*◌, ◌/◌, ◌%◌, suc, zero, Bool, true, false, ◌&&◌, Option, none, some, List,
  [], ◌∷◌, ◌++◌, if◌then◌else◌, leb, ltb, take, drop,
}
use ii.Prelude.Text.{Str, Bytes, codes}

abbrev pub max_blocks : ℕ
max_blocks = 50000

abbrev mib : ℕ
mib = 1024 * 1024

abbrev pub min_block_bytes : ℕ
min_block_bytes = 8 * mib

abbrev pub max_block_bytes : ℕ
max_block_bytes = 4000 * mib

abbrev mib_ceil : ℕ → ℕ
mib_ceil bytes = (bytes + (mib - 1)) / mib * mib

abbrev pub block_bytes : ℕ → ℕ
block_bytes size =
    let required = (size + max_blocks - 1) / max_blocks in
    min (mib_ceil (max required min_block_bytes)) max_block_bytes

unfoldable pub block_size : ℕ → Option ℕ
block_size size = if ltb (max_block_bytes * max_blocks) size then none else some (block_bytes size)

-- `u64::to_be_bytes`, in front of `out`.
unfoldable pub be_bytes : ℕ → ℕ → Bytes → Bytes
be_bytes zero n out = out
be_bytes (suc width) n out = be_bytes width (n / 256) (n % 256 ∷ out)

-- A request: the key of the object and the query stand for its URL.
pub record Request : Type 0 where
  pub method : Str
  pub key : Str
  pub query : List (Str × Str)
  pub body : Option Bytes
  pub content_length : Option ℕ
  pub content_type : Option Str
  pub extra_x_ms : List (Str × Str)

-- What the client calls over the state `W` of the other side and of the file system. A request that
-- gets no answer has no status.
pub record Remote (W : Type 0) : Type 0 where
  pub request : W → Request → W × Option ℕ
  pub open_source : W → Option Bytes
  pub base64 : Bytes → Str

abbrev pub ensure_success : ℕ → Bool
ensure_success status = leb 200 status && ltb status 300

abbrev pub checked : {W : Type 0} → W × Option ℕ → W × Bool
checked (w, none) = (w, false)
checked (w, some status) = (w, ensure_success status)

-- The `?` behind a block: an error ends the loop.
abbrev pub if_sent : {W : Type 0} → W × Bool → (W → W × Option (List Str)) → W × Option (List Str)
if_sent (w, true) next = next w
if_sent (w, false) next = (w, none)

abbrev pub block_request : Str → Str → Bytes → ℕ → Request
block_request key block_id body size = record {
  method = codes "PUT";
  key = key;
  query = (codes "comp", codes "block") ∷ (codes "blockid", block_id) ∷ [];
  body = some body;
  content_length = some size;
  content_type = some (codes "application/octet-stream");
  extra_x_ms = [];
}

abbrev pub list_header : Bytes
list_header = codes "<?xml version=\"1.0\" encoding=\"utf-8\"?><BlockList>"

abbrev pub block_elements : List Str → Bytes
block_elements [] = []
block_elements (block_id ∷ block_ids) =
    codes "<Latest>" ++ block_id ++ codes "</Latest>" ++ block_elements block_ids

abbrev list_body : List Str → Bytes
list_body block_ids = list_header ++ block_elements block_ids ++ codes "</BlockList>"

abbrev pub list_request : Str → List Str → Request
list_request key block_ids = record {
  method = codes "PUT";
  key = key;
  query = (codes "comp", codes "blocklist") ∷ [];
  body = some (list_body block_ids);
  content_length = some (length (list_body block_ids));
  content_type = some (codes "application/xml");
  extra_x_ms = [];
}

abbrev pub blob_request : Str → Request
blob_request key = record {
  method = codes "PUT";
  key = key;
  query = [];
  body = some [];
  content_length = some 0;
  content_type = some (codes "application/octet-stream");
  extra_x_ms = (codes "x-ms-blob-type", codes "BlockBlob") ∷ [];
}

abbrev head_request : Str → Request
head_request key = record {
  method = codes "HEAD";
  key = key;
  query = [];
  body = none;
  content_length = none;
  content_type = none;
  extra_x_ms = [];
}

abbrev exists_status : {W : Type 0} → W × Option ℕ → W × Option Bool
exists_status (w, none) = (w, none)
exists_status (w, some status) =
    if ensure_success status
    then (w, some true)
    else if leb 404 status && leb status 404
    then (w, some false)
    else (w, none)

module _ {W : Type 0} (remote : Remote W) where
  unfoldable pub block_id : ℕ → Str
  unfolding be_bytes
  block_id index = remote.base64 (be_bytes 8 index [])

  unfoldable pub object_exists : W → Str → W × Option Bool
  object_exists w key = exists_status (remote.request w (head_request key))

  unfoldable pub put_empty_blob : W → Str → W × Bool
  put_empty_blob w key = checked (remote.request w (blob_request key))

  -- The source is opened for each block; an error of opening it ends the upload.
  unfoldable pub put_block : W → Str → Str → ℕ → ℕ → W × Bool
  put_block w key id offset size = elim (remote.open_source w) [
    | none ↦ (w, false)
    | some file ↦
        checked (remote.request w (block_request key id (take size (drop offset file)) size))
  ]

  unfoldable pub put_block_list : W → Str → List Str → W × Bool
  put_block_list w key block_ids = checked (remote.request w (list_request key block_ids))

  -- The loop of `upload_source`: the names of the blocks, or `none` after an error.
  unfoldable pub put_blocks : ℕ → W → Str → ℕ → ℕ → ℕ → ℕ → List Str → W × Option (List Str)
  unfolding put_block block_id
  put_blocks fuel w key size index offset zero block_ids = (w, some block_ids)
  put_blocks zero w key size index offset (suc remaining) block_ids = (w, none)
  put_blocks (suc fuel) w key size index offset (suc remaining) block_ids =
      let n = min (suc remaining) size in
      let id = block_id index in
      if_sent (put_block w key id offset n) (λ v.
        put_blocks fuel v key size (index + 1) (offset + n) (suc remaining - n)
          (block_ids ++ id ∷ []))

  unfoldable pub commit_blocks : Str → W × Option (List Str) → W × Bool
  unfolding put_block_list
  commit_blocks key (w, none) = (w, false)
  commit_blocks key (w, some block_ids) = put_block_list w key block_ids

  unfoldable pub upload_source : W → Str → ℕ → W × Bool
  unfolding block_size put_blocks put_empty_blob commit_blocks
  upload_source w key zero = put_empty_blob w key
  upload_source w key (suc n) = elim (block_size (suc n)) [
    | none ↦ (w, false)
    | some size ↦ commit_blocks key (put_blocks max_blocks w key size 0 0 (suc n) [])
  ]
