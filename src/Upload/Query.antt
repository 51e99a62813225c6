-- ===== src/Upload/Query.antt =====
-- What src/web/upload.rs reads from the target of a request and from the Content-Range header.
-- Percent decoding, which fails on text that is not UTF-8, is a parameter.
use ii.Prelude.{
  ℕ, ◌≡◌, ◌≢◌, Bool, false, not, ◌&&◌, ◌||◌, Option, none, some, List, [], ◌∷◌, all, if◌then◌else◌,
  length, leb, ltb, Result, ok, err, ok_or, ◌>>=◌, bind_inverse, arith, Bool-cases, inl, inr, sym,
  subst,
}
use ii.Prelude.Text.{Str, codes, str_eq, str_eq_iff, contains, split, split_once, strip_prefix}
use ii.Prelude.Number.{parse_uint, max_u64, is_digit}

-- The value of the first part that is the key, an equals sign and a value.
find_value : Str → List Str → Option Str
find_value key [] = none
find_value key (part ∷ parts) =
    let rest = find_value key parts in
    elim (split_once b'=' part) [
      | none ↦ rest
      | some (name, value) ↦ if str_eq name key then some value else rest
    ]

unfoldable pub query_value : Str → Str → Result (Option Str) Str
unfolding find_value
query_value target key = do
  parts ← ok_or (split_once b'?' target) (codes "upload query is missing")
  ok (find_value key (split b'&' parts.1))

unfoldable pub is_bad_name : Str → Bool
is_bad_name name =
    str_eq name []
    || str_eq name (codes ".")
    || str_eq name (codes "..")
    || (contains b'/' name || contains b'\\' name)
    || contains 0 name

unfoldable pub upload_name : (Str → Option Str) → Str → Result Str Str
upload_name percent_decode target = do
  found ← query_value target (codes "name")
  encoded ← ok_or found (codes "upload name is missing")
  decoded ← ok_or (percent_decode encoded) (codes "upload name is not UTF-8")
  if is_bad_name decoded then err (codes "upload name is invalid") else ok decoded

unfoldable pub parse_size : Str → Result ℕ Str
parse_size target = do
  found ← query_value target (codes "size")
  value ← ok_or found (codes "upload size is missing")
  ok_or (parse_uint max_u64 value) (codes "upload size is invalid")

is_hex_digit : ℕ → Bool
is_hex_digit c = is_digit c || (leb b'a' c && leb c b'f') || (leb b'A' c && leb c b'F')

unfoldable pub is_session_id : Str → Bool
unfolding is_hex_digit
is_session_id value = not (str_eq value [] || ltb 32 (length value) || not (all is_hex_digit value))

unfoldable pub parse_session_id : Str → Result Str Str
parse_session_id target = do
  found ← query_value target (codes "upload")
  value ← ok_or found (codes "upload session is missing")
  if is_session_id value then ok value else err (codes "upload session is invalid")

-- The first byte, the last byte and the length of the whole file.
unfoldable pub parse_content_range : Str → Result (ℕ × ℕ × ℕ) Str
parse_content_range value = do
  rest ← ok_or (strip_prefix (codes "bytes ") value) (codes "Content-Range is invalid")
  parts ← ok_or (split_once b'/' rest) (codes "Content-Range is invalid")
  range ← ok_or (split_once b'-' parts.0) (codes "Content-Range is invalid")
  start ← ok_or (parse_uint max_u64 range.0) (codes "Content-Range start is invalid")
  end ← ok_or (parse_uint max_u64 range.1) (codes "Content-Range end is invalid")
  total ← ok_or (parse_uint max_u64 parts.1) (codes "Content-Range total is invalid")
  if ltb end start then err (codes "Content-Range is invalid") else ok (start, end, total)

-- A name that an upload may have: it names an entry of the upload directory.
abbrev pub IsPlain : Str → Type 0
IsPlain name =
    (name ≢ [])
    × (name ≢ codes ".")
    × (name ≢ codes "..")
    × (contains b'/' name ≡ false)
    × (contains b'\\' name ≡ false)
    × (contains 0 name ≡ false)

is_bad_name-IsPlain : (name : Str) → is_bad_name name ≡ false → IsPlain name
unfolding is_bad_name
is_bad_name-IsPlain name h = (
  λ e. ground (arith, (str_eq_iff name []).1 e),
  λ e. ground (arith, (str_eq_iff name (codes ".")).1 e),
  λ e. ground (arith, (str_eq_iff name (codes "..")).1 e),
  ground arith,
  ground arith,
  ground arith,
)

-- A request that names a file names one of the upload directory: the decoded name is not empty,
-- not one or two dots, and has no slash, backslash or zero.
pub upload_name-IsPlain :
    (percent_decode : Str → Option Str) (target found : Str)
    → upload_name percent_decode target ≡ ok found
    → IsPlain found
unfolding upload_name
upload_name-IsPlain percent_decode target found h =
    let (f, h1, g1) = bind_inverse (query_value target (codes "name")) _ found h in
    let (encoded, h2, g2) = bind_inverse (ok_or f (codes "upload name is missing")) _ found g1 in
    let (decoded, h3, g3) =
      bind_inverse (ok_or (percent_decode encoded) (codes "upload name is not UTF-8")) _ found g2 in
    elim (Bool-cases (is_bad_name decoded)) [
      | inl e ↦ absurd (ground arith)
      | inr e ↦
          let same : found ≡ decoded = ground arith in
          subst IsPlain (sym same) (is_bad_name-IsPlain decoded e)
    ]
