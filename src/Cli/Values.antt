-- ===== src/Cli/Values.antt =====
-- The values of options: `parse_rate`, `parse_duration`, `parse_port`, `split_long_value` and
-- `is_help` of src/cli/common.rs. A duration is a number of milliseconds.
use ii.Prelude.{
  ℕ, ◌*◌, ◌<◌, ◌≤◌, ◌≡◌, ◌⊎◌, ◌∙◌, refl, sym, ap, Bool, ◌&&◌, ◌||◌, Option, none, some, List, [],
  ◌∷◌, ◌++◌, append-nil, leb, ltb, ◌==◌, if◌then◌else◌, Result, ok, err, ok_or, ◌>>=◌, and_then,
  or_else, bind_inverse, ok_or_inverse, arith, Bool-cases, Option-cases, inl, inr,
}
use mathlib.Core.List.{reverse, reverse-append, reverse-reverse}
use ii.Prelude.Text.{Str, codes, str_eq, strip_prefix, strip_prefix_sound, split_once}
use ii.Prelude.Number.{parse_uint, max_u64, max_u16}
use ii.Cli.Options.{ParseAction, parse_error}

-- `strip_suffix`.
abbrev strip_suffix : Str → Str → Option Str
strip_suffix suffix value =
    and_then (strip_prefix (reverse suffix) (reverse value)) λ rest. some (reverse rest)

-- The first unit whose name the value ends with: the text before it and what the unit stands for.
unfoldable pub find_unit : List (Str × ℕ) → Str → Option (Str × ℕ)
find_unit [] value = none
find_unit ((suffix, multiplier) ∷ units) value =
    let rest = find_unit units value in
    elim (strip_suffix suffix value) [ none ↦ rest | some number ↦ some (number, multiplier) ]

-- `checked_mul`, and only what is positive.
unfoldable pub scaled : ℕ → ℕ → Option ℕ
scaled number multiplier =
    if leb (number * multiplier) max_u64 && ltb 0 (number * multiplier)
    then some (number * multiplier)
    else none

abbrev pub rate_units : List (Str × ℕ)
rate_units = (codes "GiB", 1_073_741_824) ∷ (codes "MiB", 1_048_576) ∷ (codes "KiB", 1024) ∷ []

abbrev duration_units : List (Str × ℕ)
duration_units =
    (codes "ms", 1) ∷ (codes "s", 1000) ∷ (codes "m", 60_000) ∷ (codes "h", 3_600_000) ∷ []

module _ (help : Str) where
  unfoldable pub parse_rate : Str → Str → Result ℕ ParseAction
  parse_rate flag value =
      let message =
        parse_error help (flag ++ codes " expects positive bytes/s or a KiB, MiB, or GiB value") in
      let (text, multiplier) = or_else (find_unit rate_units value) (value, 1) in
      ok_or (parse_uint max_u64 text) message
      >>= (λ number. ok_or (scaled number multiplier) message)

  unfoldable pub parse_duration : Str → Str → Result ℕ ParseAction
  parse_duration flag value =
      let message =
        parse_error help
          (flag ++ codes " expects a positive duration such as 500ms, 2s, 5m, or 1h") in
      ok_or (find_unit duration_units value) message >>= (λ (text, multiplier).
        ok_or (and_then (parse_uint max_u64 text) λ number. scaled number multiplier) message)

  unfoldable pub parse_port : Str → Str → Result ℕ ParseAction
  parse_port flag value =
      let message = parse_error help (flag ++ codes " expects a port from 1 to 65535") in
      ok_or (parse_uint max_u16 value) message
      >>= (λ port. if port == 0 then err message else ok port)

unfoldable pub split_long_value : Str → Option (Str × Str)
split_long_value arg = and_then (strip_prefix (codes "--") arg) (split_once b'=')

unfoldable pub is_help : Str → Bool
is_help arg = str_eq arg (codes "-h") || str_eq arg (codes "--help")

-- The unit is one of the list.
abbrev HasUnit : List (Str × ℕ) → Str → ℕ → Type 0
HasUnit [] suffix multiplier = ⊥
HasUnit ((s, m) ∷ units) suffix multiplier =
    ((s ≡ suffix) × (m ≡ multiplier)) ⊎ HasUnit units suffix multiplier

-- The value is a number and, behind it, a unit of the list, and `n` is their product, which is
-- positive and a number of 64 bits.
abbrev pub Denotes : List (Str × ℕ) → Str → ℕ → Type 0
Denotes units value n =
    (text suffix : Str) × (number multiplier : ℕ) × (value ≡ text ++ suffix)
    × HasUnit units suffix multiplier
    × (parse_uint max_u64 text ≡ some number)
    × (n ≡ number * multiplier)
    × (0 < n)
    × (n ≤ max_u64)

strip_suffix_sound :
    (suffix value rest : Str) → strip_suffix suffix value ≡ some rest → value ≡ rest ++ suffix
strip_suffix_sound suffix value rest h =
    elim (Option-cases (strip_prefix (reverse suffix) (reverse value))) [
      | inl e ↦ absurd (ground arith)
      | inr (r, e) ↦
          let parts = strip_prefix_sound (reverse suffix) (reverse value) r e in
          let same : reverse r ≡ rest = ground arith in
          sym (reverse-reverse value)
          ∙ (ap reverse parts
              ∙ (reverse-append (reverse suffix) r ∙ rw (same, reverse-reverse suffix) refl))
    ]

find_unit_sound :
    (units : List (Str × ℕ)) (value text : Str) (multiplier : ℕ)
    → find_unit units value ≡ some (text, multiplier)
    → (suffix : Str) × (value ≡ text ++ suffix) × HasUnit units suffix multiplier
unfolding find_unit
find_unit_sound [] value text multiplier h = absurd (ground arith)
find_unit_sound ((s, m) ∷ units) value text multiplier h =
    elim (Option-cases (strip_suffix s value)) [
      | inl e ↦
          let (suffix, parts, has) =
            find_unit_sound units value text multiplier (rw (e, find_unit) at h) in
          (suffix, parts, inr has)
      | inr (number, e) ↦
          let found = rw (e, find_unit) at h in
          let same : number ≡ text = ground arith in
          (s, strip_suffix_sound s value text (e ∙ ap some same), inl (refl, ground arith))
    ]

scaled_sound :
    (number multiplier n : ℕ)
    → scaled number multiplier ≡ some n
    → (n ≡ number * multiplier) × (0 < n) × (n ≤ max_u64)
unfolding scaled
scaled_sound number multiplier n h =
    elim (Bool-cases (leb (number * multiplier) max_u64 && ltb 0 (number * multiplier))) [
      | inl e ↦ (ground arith, ground arith, ground arith)
      | inr e ↦ absurd (ground arith)
    ]

product_of :
    (text : Str) (message : ParseAction) (multiplier n : ℕ)
    → (ok_or (parse_uint max_u64 text) message
        >>= (λ number. ok_or (scaled number multiplier) message))
      ≡ ok n
    → (number : ℕ) × (parse_uint max_u64 text ≡ some number)
      × (n ≡ number * multiplier)
      × (0 < n)
      × (n ≤ max_u64)
product_of text message multiplier n h =
    let (number, f, g) = bind_inverse (ok_or (parse_uint max_u64 text) message) _ n h in
    let (product, positive, fits) = scaled_sound number multiplier n (ok_or_inverse _ _ _ g) in
    (number, ok_or_inverse _ _ _ f, product, positive, fits)

-- A duration that is accepted is what its text denotes: a positive number of 64 bits of
-- milliseconds, the product of a number and of the unit behind it.
parse_duration-Denotes :
    (help flag value : Str) (n : ℕ)
    → parse_duration help flag value ≡ ok n
    → Denotes duration_units value n
unfolding parse_duration
parse_duration-Denotes help flag value n h =
    let ((text, multiplier), f, g) =
      bind_inverse (ok_or (find_unit duration_units value) _) _ n h in
    let (suffix, parts, has) =
      find_unit_sound duration_units value text multiplier (ok_or_inverse _ _ _ f) in
    let scaled_text = ok_or_inverse _ _ _ g in
    elim (Option-cases (parse_uint max_u64 text)) [
      | inl e ↦ absurd (ground arith)
      | inr (number, e) ↦
          let (product, positive, fits) = scaled_sound number multiplier n (rw e at scaled_text) in
          (text, suffix, number, multiplier, parts, has, e, product, positive, fits)
    ]

-- A rate that is accepted is what its text denotes: a positive number of 64 bits, the product of a
-- number and of the unit behind it, where a number without a unit is one of bytes.
pub parse_rate-Denotes :
    (help flag value : Str) (n : ℕ)
    → parse_rate help flag value ≡ ok n
    → Denotes (([], 1) ∷ rate_units) value n
unfolding parse_rate
parse_rate-Denotes help flag value n h =
    let message =
      parse_error help (flag ++ codes " expects positive bytes/s or a KiB, MiB, or GiB value") in
    elim (Option-cases (find_unit rate_units value)) [
      | inl e ↦
          let (number, parsed, product, positive, fits) =
            product_of value message 1 n (rw (e, parse_rate) at h) in
          (
            value,
            [],
            number,
            1,
            sym (append-nil value),
            inl (refl, refl),
            parsed,
            product,
            positive,
            fits,
          )
      | inr ((text, multiplier), e) ↦
          let (number, parsed, product, positive, fits) =
            product_of text message multiplier n (rw (e, parse_rate) at h) in
          let (suffix, parts, has) = find_unit_sound rate_units value text multiplier e in
          (text, suffix, number, multiplier, parts, inr has, parsed, product, positive, fits)
    ]
