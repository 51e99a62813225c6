-- ===== src/Json.antt =====
-- src/json.rs: the lines of events that the program prints for other programs. Text is a list of
-- code points. Printing to the standard output (`emit` and the four functions over it) is left out.
pub mod Reader
pub mod ReadBack
pub mod OneLine
mod Tests
use ii.Prelude.{
  ℕ, suc, ◌+◌, ◌-◌, ◌/◌, ◌%◌, ◌≡◌, Bool, ◌&&◌, ◌||◌, List, [], ◌∷◌, ◌++◌, leb, ltb, ◌==◌,
  if◌then◌else◌,
}
use ii.Prelude.Text.{Str, codes}
use ii.Prelude.Number.{to_string}

pub data Value : Type 0 where
  string : Str → Value
  number : ℕ → Value
  null : Value

abbrev pub quote : ℕ
quote = b'"'

abbrev pub backslash : ℕ
backslash = b'\\'

-- `char::is_control`: the code points of the category Cc.
abbrev pub is_control : ℕ → Bool
is_control c = ltb c 32 || (leb 127 c && leb c 159)

unfoldable pub hex_digit : ℕ → ℕ
hex_digit d = if ltb d 10 then b'0' + d else b'a' + (d - 10)

-- `{:04x}`, for a code point below 65536.
unfoldable pub hex4 : ℕ → Str
hex4 c =
    hex_digit (c / 4096 % 16)
    ∷ hex_digit (c / 256 % 16)
    ∷ hex_digit (c / 16 % 16)
    ∷ hex_digit (c % 16)
    ∷ []

-- What one round of the loop of `push_string` appends.
unfoldable pub escape_char : ℕ → Str
escape_char c =
    if c == quote
    then backslash ∷ quote ∷ []
    else if c == backslash
    then backslash ∷ backslash ∷ []
    else if c == 10
    then backslash ∷ b'n' ∷ []
    else if c == 13
    then backslash ∷ b'r' ∷ []
    else if c == 9
    then backslash ∷ b't' ∷ []
    else if is_control c
    then backslash ∷ b'u' ∷ hex4 c
    else c ∷ []

unfoldable pub push_chars : Str → Str → Str
push_chars output [] = output
push_chars output (c ∷ value) = push_chars (output ++ escape_char c) value

unfoldable pub push_string : Str → Str → Str
push_string output value = push_chars (output ++ quote ∷ []) value ++ quote ∷ []

unfoldable pub push_value : Str → Value → Str
push_value output (string value) = push_string output value
push_value output (number value) = output ++ to_string value
push_value output null = output ++ codes "null"

-- The loop of `line`.
unfoldable pub push_fields : Str → List (Str × Value) → Str
push_fields output [] = output
push_fields output ((name, value) ∷ fields) =
    push_fields (push_value (push_string (output ++ b',' ∷ []) name ++ b':' ∷ []) value) fields

abbrev pub head : Str
head = codes "{\"schema\":\"ii.event/v1\",\"event\":"

unfoldable pub line : Str → List (Str × Value) → Str
line event fields = push_fields (push_string head event) fields ++ b'}' ∷ []
