-- ===== src/Dav/Auth/Admission.antt =====
-- The requests that `BasicAuth::permits` of src/web/dav.rs lets in.
use ii.Prelude.{◌≡◌, ◌↔◌, true, false, Option, some, arith, All, any, Option-cases, inl, inr}
use ii.Prelude.Text.{Str, Bytes, codes, split_once, eq_ignore_ascii_case, is_whitespace}
use ii.Http.Request.{WebRequest, header}
use ii.Dav.Auth.{constant_time_eq, BasicAuth, permits_value, permits}
use ii.Dav.Auth.Compare.{IsByte, constant_time_eq_sound, constant_time_eq_refl}

permits_value-eq_true :
    (base64_decode : Str → Option Bytes) (auth : BasicAuth) (value : Str)
    → permits_value base64_decode auth value ≡ some true
    → (scheme encoded : Str) × (bytes : Bytes) × (split_once b' ' value ≡ some (scheme, encoded))
      × (eq_ignore_ascii_case scheme (codes "basic") ≡ true)
      × (any is_whitespace encoded ≡ false)
      × (base64_decode encoded ≡ some bytes)
      × (constant_time_eq bytes auth.credentials ≡ true)
unfolding permits_value
permits_value-eq_true base64_decode auth value h = elim (Option-cases (split_once b' ' value)) [
  | inl e ↦ absurd (ground arith)
  | inr ((scheme, encoded), e) ↦ elim (Option-cases (base64_decode encoded)) [
    | inl f ↦ absurd (ground arith)
    | inr (bytes, f) ↦ (scheme, encoded, bytes, e, ground arith, ground arith, f, ground arith)
  ]
]

permits-eq_value :
    (base64_decode : Str → Option Bytes) (auth : BasicAuth) (request : WebRequest)
    → permits base64_decode auth request ≡ true
    → (value : Str) × (header request (codes "authorization") ≡ some value)
      × (permits_value base64_decode auth value ≡ some true)
unfolding permits
permits-eq_value base64_decode auth request h = ground arith

permits-eq_true :
    (base64_decode : Str → Option Bytes) (auth : BasicAuth) (request : WebRequest)
    → permits base64_decode auth request ≡ true
    → (value scheme encoded : Str) × (bytes : Bytes) × (header request (codes "authorization")
        ≡ some value)
      × (split_once b' ' value ≡ some (scheme, encoded))
      × (eq_ignore_ascii_case scheme (codes "basic") ≡ true)
      × (any is_whitespace encoded ≡ false)
      × (base64_decode encoded ≡ some bytes)
      × (constant_time_eq bytes auth.credentials ≡ true)
permits-eq_true base64_decode auth request h =
    let (value, x, v) = permits-eq_value base64_decode auth request h in
    let (scheme, encoded, bytes, y, z, w, u, c) =
      permits_value-eq_true base64_decode auth value v in
    (value, scheme, encoded, bytes, x, y, z, w, u, c)

permits_of_parts :
    (base64_decode : Str → Option Bytes) (auth : BasicAuth) (request : WebRequest)
    (value scheme encoded : Str)
    → All IsByte auth.credentials
    → header request (codes "authorization") ≡ some value
    → split_once b' ' value ≡ some (scheme, encoded)
    → eq_ignore_ascii_case scheme (codes "basic") ≡ true
    → any is_whitespace encoded ≡ false
    → base64_decode encoded ≡ some auth.credentials
    → permits base64_decode auth request ≡ true
unfolding permits permits_value
permits_of_parts base64_decode auth request value scheme encoded h x y z w u =
    rw (x, permits)
      (rw (y, permits_value) (rw (z, w, u) (constant_time_eq_refl auth.credentials h)))

-- Given credentials of bytes and a decoder that gives bytes, a request is let in exactly if its
-- first Authorization header is the scheme Basic in any case, one space, and base64 text without
-- white space that decodes to the credentials.
pub permits_iff :
    (base64_decode : Str → Option Bytes) (auth : BasicAuth) (request : WebRequest)
    → All IsByte auth.credentials
    → ((text : Str) (bytes : Bytes) → base64_decode text ≡ some bytes → All IsByte bytes)
    → (permits base64_decode auth request ≡ true) ↔ (
        (value scheme encoded : Str) × (header request (codes "authorization") ≡ some value)
        × (split_once b' ' value ≡ some (scheme, encoded))
        × (eq_ignore_ascii_case scheme (codes "basic") ≡ true)
        × (any is_whitespace encoded ≡ false)
        × (base64_decode encoded ≡ some auth.credentials))
permits_iff base64_decode auth request h bytes = (
  λ e.
      let (value, scheme, encoded, bs, x, y, z, w, u, c) =
        permits-eq_true base64_decode auth request e in
      let same = constant_time_eq_sound bs auth.credentials (bytes encoded bs u) h c in
      (value, scheme, encoded, x, y, z, w, rw same at u),
  λ p. permits_of_parts base64_decode auth request p.0 p.1 p.2 h p.3 p.4 p.5 p.6 p.7,
)
