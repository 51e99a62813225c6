-- ===== src/Dav/Auth.antt =====
-- `BasicAuth` and `constant_time_eq` of src/web/dav.rs. The base64 engine is a parameter.
pub mod Compare
pub mod Admission
use Prim.Native.Nat.{bit_or, bit_xor}
use ii.Prelude.{
  ℕ, suc, zero, ◌<◌, ◌≡◌, ◌↔◌, refl, Bool, true, false, not, ◌&&◌, ◌||◌, Option, none, some, [],
  ◌∷◌, ◌++◌, arith, All, any, length, ◌==◌, ltb, if◌then◌else◌, and_then, Option-cases, inl, inr,
}
use ii.Prelude.Text.{Str, Bytes, codes, split_once, eq_ignore_ascii_case, is_whitespace}
use ii.Http.Request.{WebRequest, header}

-- The fold over the pairs of bytes.
unfoldable pub difference_of : ℕ → Bytes → Bytes → ℕ
difference_of difference [] right = difference
difference_of difference (a ∷ left) [] = difference
difference_of difference (a ∷ left) (b ∷ right) =
    difference_of (bit_or difference (bit_xor a b)) left right

unfoldable pub constant_time_eq : Bytes → Bytes → Bool
unfolding difference_of
constant_time_eq left right =
    if not (length left == length right) then false else difference_of 0 left right == 0

pub record BasicAuth : Type 0 where
  pub credentials : Bytes

-- `utf8` gives the bytes of a text.
unfoldable pub new : (Str → Bytes) → Str → Str → BasicAuth
new utf8 username password = record { credentials = utf8 (username ++ b':' ∷ password) }

module _ (base64_decode : Str → Option Bytes) where
  unfoldable pub permits_value : BasicAuth → Str → Option Bool
  permits_value auth value = and_then (split_once b' ' value) λ parts.
      if not (eq_ignore_ascii_case parts.0 (codes "basic")) || any is_whitespace parts.1
      then none
      else and_then (base64_decode parts.1)
          λ credentials. some (constant_time_eq credentials auth.credentials)

  unfoldable pub permits : BasicAuth → WebRequest → Bool
  unfolding permits_value
  permits auth request =
      elim (and_then (header request (codes "authorization")) (permits_value auth)) [
        | none ↦ false
        | some answer ↦ answer
      ]
