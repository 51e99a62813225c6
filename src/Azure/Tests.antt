-- ===== src/Azure/Tests.antt =====
-- Runs of the upload of src/backend/azure.rs with a service that keeps one blob, and instances of
-- the theorems.
use ii.Prelude.{
  ℕ, ◌*◌, ◌≤◌, ◌≡◌, ◌≢◌, suc, zero, Option, none, some, List, [], ◌∷◌, ◌++◌, map, true, arith, take,
  drop, length, refl, ap, sym, ◌∙◌, inl, inr, Bool-cases, if◌then◌else◌, is_some, and_then, leb,
}
use ii.Prelude.Text.{Str, Bytes, codes, str_eq, strip_prefix, str_eq_refl, str_eq_sound}
use ii.Azure.{
  Remote, block_id, be_bytes, block_elements, list_header, list_request, block_size, put_block,
  put_blocks, put_block_list, commit_blocks, upload_source, max_blocks, max_block_bytes,
}
use ii.Azure.Service.{Staged, concat, IsBlobService}
use ii.Azure.Service.Committed.{upload_source_committed}
use ii.Azure.Service.Progress.{upload_source_succeeds}

record Site : Type 0 where
  blocks : List (Str × Bytes)
  contents : Option Bytes

abbrev find : Str → List (Str × Bytes) → Option Bytes
find id [] = none
find id ((name, body) ∷ blocks) = if str_eq name id then some body else find id blocks

abbrev elements_of : ℕ → Bytes → List Str
elements_of zero s = []
elements_of (suc fuel) s = elim (strip_prefix (codes "<Latest>") s) [
  | none ↦ []
  | some t ↦ take 8 t ∷ elements_of fuel (drop 17 t)
]

abbrev read_blocks : List (Str × Bytes) → List Str → Option Bytes
read_blocks blocks [] = some []
read_blocks blocks (id ∷ ids) =
    and_then (find id blocks) (λ b. and_then (read_blocks blocks ids) (λ c. some (b ++ c)))

abbrev commit : Site → Option Bytes → Site × Option ℕ
commit w none = (w, some 400)
commit w (some bytes) = (record { blocks = w.blocks; contents = some bytes }, some 201)

abbrev answer : Site → List (Str × Str) → Option Bytes → Site × Option ℕ
answer w [] none = (w, some (if is_some w.contents then 200 else 404))
answer w [] (some body) = (record { blocks = w.blocks; contents = some body }, some 201)
answer w (q ∷ query) none = (w, some 400)
answer w (q ∷ []) (some body) =
    commit w (read_blocks w.blocks (elements_of (length body) (drop (length list_header) body)))
answer w (q ∷ (name, id) ∷ query) (some body) =
    (record { blocks = (id, body) ∷ w.blocks; contents = w.contents }, some 201)

abbrev three_bytes : Bytes
three_bytes = 1 ∷ 2 ∷ 3 ∷ []

abbrev site : Remote Site
site = record {
  request = λ w request. answer w request.query request.body;
  open_source = λ w. some three_bytes;
  base64 = λ bytes. bytes;
}

abbrev staged : Site → Str → Str → Option Bytes
staged w key id = find id w.blocks

abbrev blob : Site → Str → Option Bytes
blob w key = w.contents

abbrev new_site : Site
new_site = record { blocks = []; contents = none }

abbrev key : Str
key = codes "ii/a.bin"

abbrev one_block : Site
one_block = record {
  blocks = (0 ∷ 0 ∷ 0 ∷ 0 ∷ 0 ∷ 0 ∷ 0 ∷ 0 ∷ [], three_bytes) ∷ [];
  contents = some three_bytes;
}

uploaded : upload_source site new_site key 3 ≡ (one_block, true)
unfolding upload_source block_size put_blocks put_block block_id be_bytes commit_blocks
    put_block_list
uploaded = refl

two_blocks : put_blocks site 2 new_site key 2 0 0 3 [] ≡ (
  record {
    blocks =
        (0 ∷ 0 ∷ 0 ∷ 0 ∷ 0 ∷ 0 ∷ 0 ∷ 1 ∷ [], 3 ∷ [])
        ∷ (0 ∷ 0 ∷ 0 ∷ 0 ∷ 0 ∷ 0 ∷ 0 ∷ 0 ∷ [], 1 ∷ 2 ∷ [])
        ∷ [];
    contents = none;
  },
  some ((0 ∷ 0 ∷ 0 ∷ 0 ∷ 0 ∷ 0 ∷ 0 ∷ 0 ∷ []) ∷ (0 ∷ 0 ∷ 0 ∷ 0 ∷ 0 ∷ 0 ∷ 0 ∷ 1 ∷ []) ∷ []),
)
unfolding put_blocks put_block block_id be_bytes
two_blocks = refl

elements_of-block_elements :
    (fuel : ℕ) (is : List ℕ)
    → length is ≤ fuel
    → elements_of fuel (block_elements (map (block_id site) is) ++ codes "</BlockList>")
      ≡ map (block_id site) is
unfolding block_id be_bytes
elements_of-block_elements zero [] h = refl
elements_of-block_elements (suc fuel) [] h = refl
elements_of-block_elements zero (i ∷ is) h = absurd (omega arith)
elements_of-block_elements (suc fuel) (i ∷ is) h =
    ap (λ t. block_id site i ∷ t) (elements_of-block_elements fuel is (omega arith))

length-block_elements :
    (is : List ℕ)
    → length is ≤ length (block_elements (map (block_id site) is) ++ codes "</BlockList>")
unfolding block_id be_bytes
length-block_elements [] = omega arith
length-block_elements (i ∷ is) = omega (arith, length-block_elements is)

read_blocks-concat :
    (w : Site) (k : Str) (is : List ℕ) (pieces : List Bytes)
    → Staged site staged w k is pieces
    → read_blocks w.blocks (map (block_id site) is) ≡ some (concat pieces)
read_blocks-concat w k [] [] h = refl
read_blocks-concat w k [] (piece ∷ pieces) h = absurd h
read_blocks-concat w k (i ∷ is) [] h = absurd h
read_blocks-concat w k (i ∷ is) (piece ∷ pieces) (a, h) =
    rw (a, read_blocks-concat w k is pieces h) refl

find_older :
    (id other : Str) (body : Bytes) (blocks : List (Str × Bytes))
    → other ≢ id
    → find other ((id, body) ∷ blocks) ≡ find other blocks
find_older id other body blocks different = elim (Bool-cases (str_eq id other)) [
  | inl e ↦ absurd (different (sym (str_eq_sound id other e)))
  | inr e ↦ rw e refl
]

commit-contents :
    (w v : Site) (read : Option Bytes) (bytes : Bytes) (status : ℕ)
    → read ≡ some bytes
    → commit w read ≡ (v, some status)
    → v.contents ≡ some bytes
commit-contents w v none bytes status e h = absurd (ground arith)
commit-contents w v (some read) bytes status e h = ap (λ r. Site.contents (r.0)) (sym h) ∙ e

site-commits :
    (w v : Site) (k : Str) (is : List ℕ) (pieces : List Bytes) (status : ℕ)
    → Staged site staged w k is pieces
    → site.request w (list_request k (map (block_id site) is)) ≡ (v, some status)
    → v.contents ≡ some (concat pieces)
site-commits w v k is pieces status h e =
    let fits = length-block_elements is in
    let parsed =
      elements_of-block_elements
        (length (list_header ++ block_elements (map (block_id site) is) ++ codes "</BlockList>")) is
        (omega arith) in
    commit-contents w v _ (concat pieces) status (rw parsed (read_blocks-concat w k is pieces h)) e

site-IsBlobService : IsBlobService site staged blob
site-IsBlobService = record {
  base64_injective = λ b c e. e;
  keeps_block = λ w v k id body size status e good.
      ap (λ r. find id (Site.blocks (r.0))) (sym e) ∙ rw (str_eq_refl id) refl;
  keeps_others = λ w v k id other body size status e good different.
      ap (λ r. find other (Site.blocks (r.0))) (sym e)
      ∙ find_older id other body w.blocks different;
  commits = λ w v k is pieces status h e good. site-commits w v k is pieces status h e;
  empties = λ w v k status e good. ap (λ r. Site.contents (r.0)) (sym e);
}

upload_source_committed_example : blob one_block key ≡ some three_bytes
upload_source_committed_example =
    upload_source_committed site staged blob site-IsBlobService key three_bytes
      (λ w f e. ground arith) new_site one_block 3 refl uploaded

abbrev willing : Remote ℕ
willing = record {
  request = λ w request. (suc w, some 201);
  open_source = λ w. some [];
  base64 = λ bytes. bytes;
}

upload_source_succeeds_example :
    (v : ℕ) × (upload_source willing 0 key 9000000
      ≡ (v, leb 9000000 (max_block_bytes * max_blocks)))
upload_source_succeeds_example =
    upload_source_succeeds willing (λ w request. (suc w, 201, refl, refl)) (λ w. ([], refl)) 0 key
      9000000
