-- ===== src/Cli/Counting.antt =====
-- Flags and checks, as `validate_send` of src/cli/common.rs goes through them.
use ii.Prelude.{
  ◌≤◌, ◌≡◌, ◌↔◌, ◌⊎◌, refl, Bool, true, false, ◌&&◌, Option, none, some, List, [], ◌∷◌, All,
  is_some, ok, arith, inl, inr,
}
use ii.Prelude.Text.{Str}
use ii.Cli.Options.{
  SymlinkPolicy, follow, preserve, reject, is_empty, is_follow, count, first_error,
}

-- At most one of the flags is set.
abbrev pub AtMostOne : List Bool → Type 0
AtMostOne [] = Unit
AtMostOne (flag ∷ flags) = ((flag ≡ false) × AtMostOne flags) ⊎ (All (λ f. f ≡ false) flags)

abbrev IsUnset : Bool × Str → Type 0
IsUnset check = check.0 ≡ false

pub first_error_iff :
    (help : Str) (checks : List (Bool × Str))
    → (first_error help checks ≡ ok tt) ↔ All IsUnset checks
unfolding first_error
first_error_iff help [] = (λ e. tt, λ a. refl)
first_error_iff help ((true, message) ∷ checks) =
    (λ e. absurd (ground arith), λ a. absurd (ground arith))
first_error_iff help ((false, message) ∷ checks) =
    (λ e. (refl, (first_error_iff help checks).0 e), λ a. (first_error_iff help checks).1 a.1)

none_set : (flags : List Bool) → (count flags ≡ 0) ↔ All (λ f. f ≡ false) flags
none_set [] = (λ e. tt, λ a. refl)
none_set (true ∷ flags) = (λ e. absurd (omega arith), λ a. absurd (ground arith))
none_set (false ∷ flags) = (λ e. (refl, (none_set flags).0 e), λ a. (none_set flags).1 a.1)

pub count-AtMostOne : (flags : List Bool) → count flags ≤ 1 → AtMostOne flags
count-AtMostOne [] h = tt
count-AtMostOne (true ∷ flags) h = inr ((none_set flags).0 (omega arith))
count-AtMostOne (false ∷ flags) h = inl (refl, count-AtMostOne flags h)

pub count_le_one : (flags : List Bool) → AtMostOne flags → count flags ≤ 1
count_le_one [] a = omega arith
count_le_one (true ∷ flags) (inl (e, a)) = absurd (ground arith)
count_le_one (false ∷ flags) (inl (e, a)) = count_le_one flags a
count_le_one (true ∷ flags) (inr a) = omega (arith, (none_set flags).1 a)
count_le_one (false ∷ flags) (inr a) = omega (arith, (none_set flags).1 a)

pub and_false : (b : Bool) → (b && false) ≡ false
and_false true = refl
and_false false = refl

pub is_empty-eq {ℓ} : {A : Type ℓ} (xs : List A) → is_empty xs ≡ true → xs ≡ []
is_empty-eq [] h = refl
is_empty-eq (x ∷ xs) h = absurd (ground arith)

pub is_some-none {ℓ} : {A : Type ℓ} (o : Option A) → is_some o ≡ false → o ≡ none
is_some-none none h = refl
is_some-none (some a) h = absurd (ground arith)

pub is_follow-eq : (p : SymlinkPolicy) → is_follow p ≡ true → p ≡ follow
is_follow-eq follow h = refl
is_follow-eq preserve h = absurd (ground arith)
is_follow-eq reject h = absurd (ground arith)
