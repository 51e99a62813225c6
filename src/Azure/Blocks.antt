-- ===== src/Azure/Blocks.antt =====
-- The size of the blocks in src/backend/azure.rs, and the numbers that name them.
use ii.Prelude.{ℕ, ◌*◌, ◌/◌, ◌%◌, ◌^◌, ◌≤◌, ◌<◌, ◌≡◌, suc, zero, some, none, ◌∷◌, arith}
use ii.Prelude.Text.{Bytes}
use ii.Azure.{max_blocks, min_block_bytes, max_block_bytes, block_size, block_bytes, be_bytes}

-- Every file up to the limit of the service has a size of blocks with which 50,000 blocks hold it,
-- and which the service accepts.
pub block_size-Fits :
    (n : ℕ)
    → n ≤ max_block_bytes * max_blocks
    → (size : ℕ) × (block_size n ≡ some size)
      × (n ≤ size * max_blocks)
      × (min_block_bytes ≤ size)
      × (size ≤ max_block_bytes)
unfolding block_size
block_size-Fits n h = (block_bytes n, ground arith, omega arith, omega arith, omega arith)

pub block_size-refused : (n : ℕ) → max_block_bytes * max_blocks < n → block_size n ≡ none
unfolding block_size
block_size-refused n h = ground arith

pub be_bytes_injective :
    (width n m : ℕ) (out out' : Bytes)
    → n < 256 ^ width
    → m < 256 ^ width
    → be_bytes width n out ≡ be_bytes width m out'
    → (n ≡ m) × (out ≡ out')
unfolding be_bytes
be_bytes_injective zero n m out out' h k e = (omega arith, e)
be_bytes_injective (suc width) n m out out' h k e =
    let (a, b) =
      be_bytes_injective width (n / 256) (m / 256) (n % 256 ∷ out) (m % 256 ∷ out') (omega arith)
        (omega arith) e in
    let same : n % 256 ≡ m % 256 = ground arith in (omega arith, ground arith)
