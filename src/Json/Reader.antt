-- ===== src/Json/Reader.antt =====
-- A reader of event lines, written from the JSON standard and independent of the printer: the
-- specification that the printer is held against. It reads one object whose first two members are
-- the schema and the event.
use ii.Prelude.{
  ℕ, zero, suc, ◌+◌, ◌-◌, ◌*◌, ◌&&◌, ◌||◌, Option, none, some, List, [], ◌∷◌, ◌++◌, leb, ltb, ◌==◌,
  if◌then◌else◌, length, and_then,
}
use ii.Prelude.Text.{Str, codes, strip_prefix}
use ii.Prelude.Number.{is_digit, read_digits}
use ii.Json.{Value, string, number, null}

-- Inside a string: between characters, behind a backslash, or with hexadecimal digits to come
-- behind the value of those that were read.
pub data Mode : Type 0 where
  plain escaped : Mode
  hex : ℕ → ℕ → Mode

pub data Step : Type 0 where
  stop fail : Step
  go : Mode → Str → Step

unfoldable pub hex_value : ℕ → Option ℕ
hex_value c =
    if leb b'0' c && leb c b'9'
    then some (c - b'0')
    else if leb b'a' c && leb c b'f'
    then some (c - b'a' + 10)
    else if leb b'A' c && leb c b'F'
    then some (c - b'A' + 10)
    else none

unfoldable pub hex_step : ℕ → ℕ → Option ℕ → Step
hex_step left value none = fail
hex_step zero value (some d) = go plain ((value * 16 + d) ∷ [])
hex_step (suc left) value (some d) = go (hex left (value * 16 + d)) []

-- A control character below 32 may not stand in a string.
unfoldable pub read_step : Mode → ℕ → Step
read_step plain c =
    if c == b'"'
    then stop
    else if c == b'\\'
    then go escaped []
    else if ltb c 32
    then fail
    else go plain (c ∷ [])
read_step escaped c =
    if c == b'"' || c == b'\\' || c == b'/'
    then go plain (c ∷ [])
    else if c == b'b'
    then go plain (8 ∷ [])
    else if c == b'f'
    then go plain (12 ∷ [])
    else if c == b'n'
    then go plain (10 ∷ [])
    else if c == b'r'
    then go plain (13 ∷ [])
    else if c == b't'
    then go plain (9 ∷ [])
    else if c == b'u'
    then go (hex 3 0) []
    else fail
read_step (hex left value) c = hex_step left value (hex_value c)

-- The text of a string and what follows its closing quote.
unfoldable pub read_chars : Mode → Str → Str → Option (Str × Str)
read_chars mode text [] = none
read_chars mode text (c ∷ s) = elim (read_step mode c) [
  | stop ↦ some (text, s)
  | fail ↦ none
  | go mode' more ↦ read_chars mode' (text ++ more) s
]

unfoldable pub read_string : Str → Option (Str × Str)
read_string s = and_then (strip_prefix (b'"' ∷ []) s) (read_chars plain [])

unfoldable pub read_number : Str → Option (Value × Str)
read_number [] = none
read_number (c ∷ s) =
    let (n, rest) = read_digits 0 (c ∷ s) in if is_digit c then some (number n, rest) else none

unfoldable pub read_value : Str → Option (Value × Str)
read_value s = elim (read_string s) [
  | some (text, rest) ↦ some (string text, rest)
  | none ↦ elim (strip_prefix (codes "null") s) [
    | some rest ↦ some (null, rest)
    | none ↦ read_number s
  ]
]

-- One member, with the comma before it.
unfoldable pub read_field : Str → Option ((Str × Value) × Str)
read_field s = and_then (strip_prefix (b',' ∷ []) s) λ s1. and_then (read_string s1) λ r.
    and_then (strip_prefix (b':' ∷ []) r.1)
      λ s2. and_then (read_value s2) λ v. some ((r.0, v.0), v.1)

-- The members up to the brace that ends the text; the fuel bounds their number.
unfoldable pub read_fields : ℕ → Str → Option (List (Str × Value))
read_fields zero s = none
read_fields (suc fuel) s = elim (read_field s) [
  | some (field, rest) ↦ elim (read_fields fuel rest) [
    | some fields ↦ some (field ∷ fields)
    | none ↦ none
  ]
  | none ↦ elim (strip_prefix (b'}' ∷ []) s) [ some [] ↦ some [] | _ ↦ none ]
]

unfoldable pub read_line : Str → Option (Str × List (Str × Value))
read_line s = and_then (strip_prefix (codes "{\"schema\":\"ii.event/v1\",\"event\":") s) λ s1.
    and_then (read_string s1)
      λ r. and_then (read_fields (length s) r.1) λ fields. some (r.0, fields)
