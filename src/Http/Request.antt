-- ===== src/Http/Request.antt =====
-- A parsed request of src/web/http.rs, its headers, and the path behind the access token.
use ii.Prelude.{ℕ, Option, none, some, List, [], ◌∷◌, if◌then◌else◌, and_then}
use ii.Prelude.Text.{Str, Bytes, strip_prefix, eq_ignore_ascii_case}

pub data WebRange : Type 0 where
  absent : WebRange
  ranged : Str → WebRange
  invalid : WebRange

pub record WebRequest : Type 0 where
  pub method : Str
  pub target : Str
  pub content_length : Option ℕ
  pub range : WebRange
  pub body : Bytes
  pub headers : List (Str × Str)

unfoldable pub find_header : List (Str × Str) → Str → Option Str
find_header [] name = none
find_header ((header, value) ∷ headers) name =
    if eq_ignore_ascii_case header name then some value else find_header headers name

unfoldable pub header : WebRequest → Str → Option Str
unfolding find_header
header request name = find_header request.headers name

unfoldable pub web_token_path : Option Str → Str → Option Str
web_token_path none target = strip_prefix (b'/' ∷ []) target
web_token_path (some token) target =
    and_then (strip_prefix (b'/' ∷ []) target)
      λ path. and_then (strip_prefix token path) λ rest. strip_prefix (b'/' ∷ []) rest
