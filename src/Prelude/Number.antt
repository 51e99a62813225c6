-- ===== src/Prelude/Number.antt =====
-- `to_string` and `parse` of the unsigned integers, as the standard library defines them, and
-- hexadecimal digits. The fuel of `dec_loop` is the number itself and one more: each round divides
-- it by ten.
use Prim.Native.Nat.{ℕ, zero, suc, ◌+◌, ◌-◌, ◌*◌, ◌/◌, ◌%◌, ◌^◌, ◌≤◌, ◌<◌}
use mathlib.Core.Path.{◌≡◌, refl, ◌∙◌}
use mathlib.Core.Bool.{Bool, false, ◌&&◌}
use mathlib.Core.Logic.{inl, inr}
use mathlib.Core.Option.{Option, none, some}
use mathlib.Core.List.{[], ◌∷◌, ◌++◌}
use native.Mathlib.Omega.{arith}
use ii.Prelude.Tests.{ltb, leb, ◌==◌, if◌then◌else◌, Bool-cases}
use ii.Prelude.Lists.{All}
use ii.Prelude.Text.{Str}

abbrev pub max_u16 : ℕ
max_u16 = 2 ^ 16 - 1

abbrev pub max_u32 : ℕ
max_u32 = 2 ^ 32 - 1

abbrev pub max_u64 : ℕ
max_u64 = 2 ^ 64 - 1

abbrev pub is_digit : ℕ → Bool
is_digit c = leb b'0' c && leb c b'9'

dec_loop : ℕ → ℕ → Str → Str
dec_loop zero n out = out
dec_loop (suc fuel) n out =
    let d = b'0' + n % 10 in
    let rest = dec_loop fuel (n / 10) (d ∷ out) in if ltb n 10 then d ∷ out else rest

unfoldable pub to_string : ℕ → Str
unfolding dec_loop
to_string n = dec_loop (suc n) n []

-- The digits behind `n`; a value above `max` and any other character fail.
parse_from : ℕ → ℕ → Str → Option ℕ
parse_from max n [] = some n
parse_from max n (c ∷ s) =
    let m = n * 10 + (c - b'0') in
    let rest = parse_from max m s in if is_digit c && leb m max then rest else none

-- A leading plus sign is allowed; a text without a digit is not a number.
parse_digits : ℕ → Str → Option ℕ
parse_digits max [] = none
parse_digits max (c ∷ s) = parse_from max 0 (c ∷ s)

unfoldable pub parse_uint : ℕ → Str → Option ℕ
unfolding parse_digits parse_from
parse_uint max [] = none
parse_uint max (c ∷ s) = if c == b'+' then parse_digits max s else parse_digits max (c ∷ s)

-- The longest run of digits at the start of a text, behind `n`, and what follows.
unfoldable pub read_digits : ℕ → Str → ℕ × Str
read_digits n [] = (n, [])
read_digits n (c ∷ s) =
    let rest = read_digits (n * 10 + (c - b'0')) s in if is_digit c then rest else (n, c ∷ s)

read_digits-dec_loop :
    (fuel n : ℕ) (out : Str) → n < fuel → read_digits 0 (dec_loop fuel n out) ≡ read_digits n out
unfolding dec_loop read_digits
read_digits-dec_loop zero n out h = elim h [ ]
read_digits-dec_loop (suc fuel) n out h =
    ground (arith, read_digits-dec_loop fuel (n / 10) ((b'0' + n % 10) ∷ out))

parse_from-dec_loop :
    (max fuel n : ℕ) (out : Str)
    → n < fuel
    → n ≤ max
    → parse_from max 0 (dec_loop fuel n out) ≡ parse_from max n out
unfolding dec_loop parse_from
parse_from-dec_loop max zero n out h k = elim h [ ]
parse_from-dec_loop max (suc fuel) n out h k =
    ground (arith, parse_from-dec_loop max fuel (n / 10) ((b'0' + n % 10) ∷ out))

abbrev pub IsDigit : ℕ → Type 0
IsDigit c = (b'0' ≤ c) × (c ≤ b'9')

dec_loop-IsDigit : (fuel n : ℕ) (out : Str) → All IsDigit out → All IsDigit (dec_loop fuel n out)
unfolding dec_loop
dec_loop-IsDigit zero n out h = h
dec_loop-IsDigit (suc fuel) n out h = elim (Bool-cases (ltb n 10)) [
  | inl e ↦ rw e ((omega arith, omega arith), h)
  | inr e ↦ rw e (dec_loop-IsDigit fuel (n / 10) _ ((omega arith, omega arith), h))
]

-- A print has a first digit.
dec_loop-cons :
    (fuel n : ℕ) (c : ℕ) (out : Str)
    → IsDigit c
    → (d : ℕ) × (rest : Str) × (dec_loop fuel n (c ∷ out) ≡ d ∷ rest) × IsDigit d
unfolding dec_loop
dec_loop-cons zero n c out h = (c, out, refl, h)
dec_loop-cons (suc fuel) n c out h = elim (Bool-cases (ltb n 10)) [
  | inl e ↦ rw e (b'0' + n % 10, c ∷ out, refl, (omega arith, omega arith))
  | inr e ↦ rw e (dec_loop-cons fuel (n / 10) _ _ (omega arith, omega arith))
]

pub to_string-cons : (n : ℕ) → (d : ℕ) × (rest : Str) × (to_string n ≡ d ∷ rest) × IsDigit d
unfolding to_string
to_string-cons n = elim (Bool-cases (ltb n 10)) [
  | inl e ↦ rw e (b'0' + n % 10, [], refl, (omega arith, omega arith))
  | inr e ↦ rw e (dec_loop-cons n (n / 10) _ _ (omega arith, omega arith))
]

pub to_string-IsDigit : (n : ℕ) → All IsDigit (to_string n)
unfolding to_string
to_string-IsDigit n = dec_loop-IsDigit (suc n) n [] tt

dec_loop-append :
    (fuel n : ℕ) (out rest : Str) → dec_loop fuel n out ++ rest ≡ dec_loop fuel n (out ++ rest)
unfolding dec_loop
dec_loop-append zero n out rest = refl
dec_loop-append (suc fuel) n out rest =
    ground (arith, dec_loop-append fuel (n / 10) ((b'0' + n % 10) ∷ out) rest)

parse_from-to_string : (max n : ℕ) → n ≤ max → parse_from max 0 (to_string n) ≡ some n
unfolding to_string parse_from
parse_from-to_string max n h = parse_from-dec_loop max (suc n) n [] (omega arith) h

-- Every number is read back from its print, up to a text that does not go on with a digit.
pub read_digits-to_string :
    (n c : ℕ) (rest : Str)
    → is_digit c ≡ false
    → read_digits 0 (to_string n ++ c ∷ rest) ≡ (n, c ∷ rest)
unfolding to_string read_digits
read_digits-to_string n c rest h =
    rw (dec_loop-append (suc n) n [] (c ∷ rest))
      (read_digits-dec_loop (suc n) n (c ∷ rest) (omega arith) ∙ rw h refl)

parse_uint-digit :
    (max d : ℕ) (rest : Str) → IsDigit d → parse_uint max (d ∷ rest) ≡ parse_from max 0 (d ∷ rest)
unfolding parse_uint
parse_uint-digit max d rest h = ground arith

-- A number that fits is parsed back from its print.
pub parse_uint-to_string : (max n : ℕ) → n ≤ max → parse_uint max (to_string n) ≡ some n
parse_uint-to_string max n h =
    let (d, rest, e, k) = to_string-cons n in
    rw e (parse_uint-digit max d rest k ∙ rw (← e) (parse_from-to_string max n h))

parse_from-le :
    (max n : ℕ) (s : Str) {r : ℕ} → n ≤ max → parse_from max n s ≡ some r → (n ≤ r) × (r ≤ max)
unfolding parse_from
parse_from-le max n [] h e = ground arith
parse_from-le max n (c ∷ s) {r} h e =
    ground (arith, parse_from-le max (n * 10 + (c - b'0')) s {r = r})

-- What is parsed fits.
pub parse_uint-le : (max : ℕ) (s : Str) {r : ℕ} → parse_uint max s ≡ some r → r ≤ max
unfolding parse_uint parse_digits
parse_uint-le max [] e = cc
parse_uint-le max (c ∷ []) {r} e = ground (arith, parse_from-le max 0 (c ∷ []) {r = r})
parse_uint-le max (c ∷ d ∷ s) {r} e =
    ground (arith, parse_from-le max 0 (c ∷ d ∷ s) {r = r}, parse_from-le max 0 (d ∷ s) {r = r})
