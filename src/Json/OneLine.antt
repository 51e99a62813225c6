-- ===== src/Json/OneLine.antt =====
-- A printed event of src/json.rs is one line.
use ii.Prelude.{ℕ, ◌<◌, ◌≡◌, refl, ◌/◌, ◌%◌, false, List, [], ◌∷◌, ◌++◌, arith, All, All-append}
use ii.Prelude.Text.{Str, codes}
use ii.Prelude.Number.{to_string, to_string-IsDigit, IsDigit}
use ii.Json.{
  Value, string, number, null, is_control, hex_digit, hex4, escape_char, push_chars, push_string,
  push_value, push_fields, head, line,
}

abbrev IsPrintable : ℕ → Type 0
IsPrintable c = is_control c ≡ false

hex_digit-IsPrintable : (d : ℕ) → d < 16 → IsPrintable (hex_digit d)
unfolding hex_digit
hex_digit-IsPrintable d h = ground arith

hex4-IsPrintable : (c : ℕ) → All IsPrintable (hex4 c)
unfolding hex4
hex4-IsPrintable c = ground (
  arith,
  hex_digit-IsPrintable (c / 4096 % 16),
  hex_digit-IsPrintable (c / 256 % 16),
  hex_digit-IsPrintable (c / 16 % 16),
  hex_digit-IsPrintable (c % 16),
)

escape_char-IsPrintable : (c : ℕ) → All IsPrintable (escape_char c)
unfolding escape_char
escape_char-IsPrintable c = ground (arith, hex4-IsPrintable c)

push_chars-IsPrintable :
    (output value : Str) → All IsPrintable output → All IsPrintable (push_chars output value)
unfolding push_chars
push_chars-IsPrintable output [] h = h
push_chars-IsPrintable output (c ∷ value) h =
    push_chars-IsPrintable (output ++ escape_char c) value
      (All-append IsPrintable output (escape_char c) h (escape_char-IsPrintable c))

-- Text in front of which something printable stands.
append_char :
    (output : Str) (c : ℕ)
    → All IsPrintable output
    → IsPrintable c
    → All IsPrintable (output ++ c ∷ [])
append_char output c h k = All-append IsPrintable output (c ∷ []) h (k, tt)

push_string-IsPrintable :
    (output value : Str) → All IsPrintable output → All IsPrintable (push_string output value)
unfolding push_string
push_string-IsPrintable output value h =
    append_char _ b'"' (push_chars-IsPrintable _ value (append_char output b'"' h refl)) refl

digits-IsPrintable : (s : Str) → All IsDigit s → All IsPrintable s
digits-IsPrintable [] h = tt
digits-IsPrintable (c ∷ s) (k, h) = (ground arith, digits-IsPrintable s h)

push_value-IsPrintable :
    (output : Str) (value : Value)
    → All IsPrintable output
    → All IsPrintable (push_value output value)
unfolding push_value
push_value-IsPrintable output (string value) h = push_string-IsPrintable output value h
push_value-IsPrintable output (number value) h =
    All-append IsPrintable output (to_string value) h
      (digits-IsPrintable _ (to_string-IsDigit value))
push_value-IsPrintable output null h = All-append IsPrintable output (codes "null") h (ground arith)

push_fields-IsPrintable :
    (output : Str) (fields : List (Str × Value))
    → All IsPrintable output
    → All IsPrintable (push_fields output fields)
unfolding push_fields
push_fields-IsPrintable output [] h = h
push_fields-IsPrintable output ((name, value) ∷ fields) h =
    push_fields-IsPrintable (push_value (push_string (output ++ b',' ∷ []) name ++ b':' ∷ []) value)
      fields
      (push_value-IsPrintable _ value
        (append_char _ b':' (push_string-IsPrintable _ name (append_char output b',' h refl)) refl))

head-IsPrintable : All IsPrintable head
head-IsPrintable = ground arith

-- A printed event holds no control character, whatever its name, its field names and its texts
-- hold, so it takes exactly one line.
line-IsPrintable : (event : Str) (fields : List (Str × Value)) → All IsPrintable (line event fields)
unfolding line
line-IsPrintable event fields =
    append_char _ b'}'
      (push_fields-IsPrintable _ fields (push_string-IsPrintable head event head-IsPrintable)) refl
