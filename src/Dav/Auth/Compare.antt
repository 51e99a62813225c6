-- ===== src/Dav/Auth/Compare.antt =====
-- `constant_time_eq` of src/web/dav.rs is equality of bytes.
use mathlib.Core.Path.{ap₂}
use Prim.Native.Nat.{bit_or, bit_xor}
use ii.Prelude.{
  ℕ, suc, zero, ◌<◌, ◌≡◌, ◌↔◌, refl, Bool, true, not, ◌&&◌, [], ◌∷◌, arith, All, length, all, ◌==◌,
  ltb, if◌then◌else◌,
}
use ii.Prelude.Text.{Bytes}
use ii.Dav.Auth.{difference_of, constant_time_eq}

abbrev pub IsByte : ℕ → Type 0
IsByte b = b < 256

-- Every pair of bytes, and what the operations on bits do with it.
descending : ℕ → Bytes
descending zero = []
descending (suc n) = n ∷ descending n

all-descending :
    (test : ℕ → Bool) (n x : ℕ) → x < n → all test (descending n) ≡ true → test x ≡ true
unfolding descending
all-descending test zero x below h = absurd (omega arith)
all-descending test (suc n) x below h = ground (arith, all-descending test n x)

abbrev same : Bool → Bool → Bool
same p q = if p then q else not q

abbrev agrees : ℕ → ℕ → Bool
agrees left right =
    let difference = bit_xor left right in
    let either = bit_or left right in
    same (difference == 0) (left == right)
    && same (either == 0) (left == 0 && right == 0)
    && ltb difference 256
    && ltb either 256

every_pair : all (λ left. all (agrees left) (descending 256)) (descending 256) ≡ true
unfolding descending
every_pair = refl

bytes_agree : (left right : ℕ) → IsByte left → IsByte right → agrees left right ≡ true
bytes_agree left right l r =
    let row = all-descending (λ x. all (agrees x) (descending 256)) 256 left l every_pair in
    all-descending (agrees left) 256 right r row

xor-eq_zero :
    (left right : ℕ)
    → IsByte left
    → IsByte right
    → ((bit_xor left right ≡ 0) ↔ (left ≡ right)) × IsByte (bit_xor left right)
xor-eq_zero left right l r = (
  (
    λ z. ground (arith, bytes_agree left right l r),
    λ e. ground (arith, bytes_agree left right l r),
  ),
  ground (arith, bytes_agree left right l r),
)

or-eq_zero :
    (left right : ℕ)
    → IsByte left
    → IsByte right
    → (bit_or left right ≡ 0 → (left ≡ 0) × (right ≡ 0)) × IsByte (bit_or left right)
or-eq_zero left right l r =
    (λ z. ground (arith, bytes_agree left right l r), ground (arith, bytes_agree left right l r))

difference_of_sound :
    (left right : Bytes) (d : ℕ)
    → IsByte d
    → All IsByte left
    → All IsByte right
    → length left ≡ length right
    → difference_of d left right ≡ 0
    → (d ≡ 0) × (left ≡ right)
unfolding difference_of
difference_of_sound [] [] d hd hl hr e z = (z, refl)
difference_of_sound [] (b ∷ right) d hd hl hr e z = absurd (omega arith)
difference_of_sound (a ∷ left) [] d hd hl hr e z = absurd (omega arith)
difference_of_sound (a ∷ left) (b ∷ right) d hd (ha, hl) (hb, hr) e z =
    let (x, xb) = xor-eq_zero a b ha hb in
    let (o, ob) = or-eq_zero d (bit_xor a b) hd xb in
    let (z1, rest) =
      difference_of_sound left right (bit_or d (bit_xor a b)) ob hl hr (omega arith) z in
    let (start, none_differs) = o z1 in (start, ap₂ (λ c s. c ∷ s) (x.0 none_differs) rest)

difference_of_self : (left : Bytes) → All IsByte left → difference_of 0 left left ≡ 0
unfolding difference_of
difference_of_self [] h = refl
difference_of_self (a ∷ left) (ha, h) =
    rw ((xor-eq_zero a a ha ha).0.1 refl) (difference_of_self left h)

pub constant_time_eq_sound :
    (left right : Bytes)
    → All IsByte left
    → All IsByte right
    → constant_time_eq left right ≡ true
    → left ≡ right
unfolding constant_time_eq
constant_time_eq_sound left right h k e =
    (difference_of_sound left right 0 (omega arith) h k (ground arith) (ground arith)).1

pub constant_time_eq_refl : (left : Bytes) → All IsByte left → constant_time_eq left left ≡ true
unfolding constant_time_eq
constant_time_eq_refl left h = ground (arith, difference_of_self left h)

-- The comparison of constant time is equality.
pub constant_time_eq_iff :
    (left right : Bytes)
    → All IsByte left
    → All IsByte right
    → (constant_time_eq left right ≡ true) ↔ (left ≡ right)
constant_time_eq_iff left right h k =
    (constant_time_eq_sound left right h k, λ e. rw e (constant_time_eq_refl right k))
