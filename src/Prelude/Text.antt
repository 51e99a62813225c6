-- ===== src/Prelude/Text.antt =====
-- The text operations of the standard library that the program calls, over lists of numbers.
use Prim.Native.Nat.{ℕ}
use Prim.Native.Char.{code}
use Prim.Native.String.{String}
use mathlib.Core.Path.{◌≡◌, refl}
use mathlib.Core.Bool.{Bool, true, false, ◌&&◌}
use mathlib.Core.Logic.{◌↔◌}
use mathlib.Core.Option.{Option, none, some}
use mathlib.Core.List.{List, [], ◌∷◌, ◌++◌}
use native.Mathlib.Omega.{arith}
use Prim.Native.Nat.{◌+◌}
use mathlib.Core.Bool.{◌||◌}
use mathlib.Core.List.{map, reverse}
use ii.Prelude.Tests.{◌==◌, leb, if◌then◌else◌, is_some}
use ii.Prelude.Lists.{any}

abbrev pub Str : Type 0
Str = List ℕ

abbrev pub Bytes : Type 0
Bytes = List ℕ

-- The code points of a literal: its bytes, if it is ASCII.
abbrev pub codes : String → Str
codes String.[] = []
codes (String.◌∷◌ c s) = code c ∷ codes s

-- `==` on texts and byte strings.
abbrev pub str_eq : Str → Str → Bool
str_eq [] [] = true
str_eq [] (b ∷ t) = false
str_eq (a ∷ s) [] = false
str_eq (a ∷ s) (b ∷ t) = a == b && str_eq s t

pub str_eq_sound : (s t : Str) → str_eq s t ≡ true → s ≡ t
str_eq_sound [] [] h = refl
str_eq_sound [] (b ∷ t) h = ground arith
str_eq_sound (a ∷ s) [] h = ground arith
str_eq_sound (a ∷ s) (b ∷ t) h = ground (arith, str_eq_sound s t)

pub str_eq_refl : (s : Str) → str_eq s s ≡ true
str_eq_refl [] = refl
str_eq_refl (a ∷ s) = ground (arith, str_eq_refl s)

pub str_eq_iff : (s t : Str) → (str_eq s t ≡ true) ↔ (s ≡ t)
str_eq_iff s t = (str_eq_sound s t, λ e. rw e (str_eq_refl t))

-- `strip_prefix`; `starts_with` asks whether there is a result.
abbrev pub strip_prefix : Str → Str → Option Str
strip_prefix [] t = some t
strip_prefix (a ∷ p) [] = none
strip_prefix (a ∷ p) (b ∷ t) = if a == b then strip_prefix p t else none

pub strip_prefix-append : (p t : Str) → strip_prefix p (p ++ t) ≡ some t
strip_prefix-append [] t = refl
strip_prefix-append (a ∷ p) t = ground (arith, strip_prefix-append p t)

pub strip_prefix_sound : (p s t : Str) → strip_prefix p s ≡ some t → s ≡ p ++ t
strip_prefix_sound [] s t h = ground arith
strip_prefix_sound (a ∷ p) [] t h = ground arith
strip_prefix_sound (a ∷ p) (b ∷ s) t h = ground (arith, strip_prefix_sound p s t)

-- `contains` of a character.
abbrev pub contains : ℕ → Str → Bool
contains c = any (λ d. d == c)

-- `split_once` of a character: the text before its first occurrence and the text behind it.
abbrev pub before_cons : ℕ → Option (Str × Str) → Option (Str × Str)
before_cons d none = none
before_cons d (some (before, after)) = some (d ∷ before, after)

abbrev pub split_once : ℕ → Str → Option (Str × Str)
split_once c [] = none
split_once c (d ∷ s) = if d == c then some ([], s) else before_cons d (split_once c s)

-- `split` of a character: the parts between its occurrences, of which there is at least one.
abbrev pub cons_part : ℕ → List Str → List Str
cons_part d [] = (d ∷ []) ∷ []
cons_part d (part ∷ parts) = (d ∷ part) ∷ parts

abbrev pub split : ℕ → Str → List Str
split c [] = [] ∷ []
split c (d ∷ s) = if d == c then [] ∷ split c s else cons_part d (split c s)

-- `trim_start_matches` of a set of characters, and the same at both ends and at the end.
abbrev pub trim_start : (ℕ → Bool) → Str → Str
trim_start p [] = []
trim_start p (c ∷ s) = if p c then trim_start p s else c ∷ s

abbrev pub trim_end : (ℕ → Bool) → Str → Str
trim_end p s = reverse (trim_start p (reverse s))

abbrev pub trim_matches : (ℕ → Bool) → Str → Str
trim_matches p s = trim_end p (trim_start p s)

-- `char::is_whitespace`: the code points with the property White_Space.
abbrev pub is_whitespace : ℕ → Bool
is_whitespace c =
    (leb 9 c && leb c 13)
    || c == 32
    || c == 0x85
    || c == 0xa0
    || c == 0x1680
    || (leb 0x2000 c && leb c 0x200a)
    || c == 0x2028
    || c == 0x2029
    || c == 0x202f
    || c == 0x205f
    || c == 0x3000

abbrev pub trim : Str → Str
trim s = trim_matches is_whitespace s

-- `contains` of a text.
abbrev pub contains_str : Str → Str → Bool
contains_str needle [] = is_some (strip_prefix needle [])
contains_str needle (c ∷ s) = is_some (strip_prefix needle (c ∷ s)) || contains_str needle s

-- `to_ascii_lowercase` and `eq_ignore_ascii_case`.
abbrev pub lower : ℕ → ℕ
lower c = if leb b'A' c && leb c b'Z' then c + 32 else c

abbrev pub eq_ignore_ascii_case : Str → Str → Bool
eq_ignore_ascii_case s t = str_eq (map lower s) (map lower t)
