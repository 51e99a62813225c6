-- ===== src/Json/ReadBack.antt =====
-- The lines of src/json.rs are JSON: the reader gets back what was printed.
use ii.Prelude.{
  ℕ, zero, suc, ◌+◌, ◌*◌, ◌/◌, ◌%◌, ◌≤◌, ◌<◌, ◌≡◌, ◌∙◌, refl, sym, ap, true, false, some, List, [],
  ◌∷◌, ◌++◌, length, length-append, arith, append_assoc, append-nil,
}
use ii.Prelude.Text.{Str, codes}
use ii.Prelude.Number.{
  is_digit, read_digits, to_string, read_digits-to_string, to_string-cons, IsDigit,
}
use ii.Json.{
  Value, string, number, null, quote, backslash, is_control, hex_digit, hex4, escape_char,
  push_chars, push_string, push_value, push_fields, head, line,
}
use ii.Json.Reader.{
  Mode, plain, escaped, hex, go, read_step, hex_step, hex_value, read_chars, read_string,
  read_number, read_value, read_field, read_fields, read_line,
}

hex_value-hex_digit : (d : ℕ) → d < 16 → hex_value (hex_digit d) ≡ some d
unfolding hex_value hex_digit
hex_value-hex_digit d h = ground arith

-- One character that does not end the string.
read_chars-go :
    (mode mode' : Mode) (c : ℕ) (more text rest : Str)
    → read_step mode c ≡ go mode' more
    → read_chars mode text (c ∷ rest) ≡ read_chars mode' (text ++ more) rest
unfolding read_chars
read_chars-go mode mode' c more text rest h = rw (h, read_chars) refl

read_chars-hex_suc :
    (left value d : ℕ) (text rest : Str)
    → d < 16
    → read_chars (hex (suc left) value) text (hex_digit d ∷ rest)
      ≡ read_chars (hex left (value * 16 + d)) text rest
unfolding read_step hex_step
read_chars-hex_suc left value d text rest h =
    read_chars-go (hex (suc left) value) (hex left (value * 16 + d)) _ [] text rest
      (rw (hex_value-hex_digit d h) refl)
    ∙ rw append-nil refl

read_chars-hex_zero :
    (value d : ℕ) (text rest : Str)
    → d < 16
    → read_chars (hex zero value) text (hex_digit d ∷ rest)
      ≡ read_chars plain (text ++ (value * 16 + d) ∷ []) rest
unfolding read_step hex_step
read_chars-hex_zero value d text rest h =
    read_chars-go (hex zero value) plain _ _ text rest (rw (hex_value-hex_digit d h) refl)

hex4_value :
    (c : ℕ)
    → c < 65536
    → (((0 * 16 + c / 4096 % 16) * 16 + c / 256 % 16) * 16 + c / 16 % 16) * 16 + c % 16 ≡ c
hex4_value c h = omega arith

-- Four digits are read as their value.
read_chars-hex4 :
    (c : ℕ) (text rest : Str)
    → c < 65536
    → read_chars (hex 3 0) text (hex4 c ++ rest) ≡ read_chars plain (text ++ c ∷ []) rest
unfolding hex4
read_chars-hex4 c text rest h =
    read_chars-hex_suc 2 0 (c / 4096 % 16) text _ (omega arith)
    ∙ read_chars-hex_suc 1 _ (c / 256 % 16) text _ (omega arith)
    ∙ read_chars-hex_suc 0 _ (c / 16 % 16) text _ (omega arith)
    ∙ read_chars-hex_zero _ (c % 16) text rest (omega arith)
    ∙ ap (λ v. read_chars plain (text ++ v ∷ []) rest) (hex4_value c h)

-- A backslash and a letter.
read_chars-short :
    (c letter : ℕ) (text rest : Str)
    → read_step escaped letter ≡ go plain (c ∷ [])
    → read_chars plain text (backslash ∷ letter ∷ rest) ≡ read_chars plain (text ++ c ∷ []) rest
unfolding read_step
read_chars-short c letter text rest h =
    read_chars-go plain escaped backslash [] text _ refl
    ∙ read_chars-go escaped plain letter (c ∷ []) _ rest h
    ∙ rw append-nil refl

read_chars-control :
    (c : ℕ) (text rest : Str)
    → is_control c ≡ true
    → read_chars plain text (backslash ∷ b'u' ∷ hex4 c ++ rest)
      ≡ read_chars plain (text ++ c ∷ []) rest
unfolding read_step
read_chars-control c text rest h =
    read_chars-go plain escaped backslash [] text _ refl
    ∙ read_chars-go escaped (hex 3 0) b'u' [] _ _ refl
    ∙ read_chars-hex4 c _ rest (ground arith)
    ∙ simp append-nil

-- Whatever a character is printed as, it is read back as that character.
read_chars-escape_char :
    (c : ℕ) (text rest : Str)
    → read_chars plain text (escape_char c ++ rest) ≡ read_chars plain (text ++ c ∷ []) rest
unfolding escape_char read_step
read_chars-escape_char c text rest = ground (
  arith,
  read_chars-short quote quote text rest,
  read_chars-short backslash backslash text rest,
  read_chars-short 10 b'n' text rest,
  read_chars-short 13 b'r' text rest,
  read_chars-short 9 b't' text rest,
  read_chars-control c text rest,
  read_chars-go plain plain c (c ∷ []) text rest,
)

-- `push_string` appends; what it appends is a string of the reader.
abbrev quoted : Str → Str
quoted [] = quote ∷ []
quoted (c ∷ value) = escape_char c ++ quoted value

push_chars-quoted :
    (output value : Str) → push_chars output value ++ quote ∷ [] ≡ output ++ quoted value
unfolding push_chars
push_chars-quoted output [] = refl
push_chars-quoted output (c ∷ value) =
    push_chars-quoted (output ++ escape_char c) value ∙ append_assoc output _ _

push_string-quoted :
    (output value : Str) → push_string output value ≡ output ++ quote ∷ quoted value
unfolding push_string
push_string-quoted output value =
    push_chars-quoted (output ++ quote ∷ []) value ∙ append_assoc output _ _

read_chars-quoted :
    (value text rest : Str)
    → read_chars plain text (quoted value ++ rest) ≡ some (text ++ value, rest)
unfolding read_chars read_step
read_chars-quoted [] text rest = rw (read_chars, append-nil) refl
read_chars-quoted (c ∷ value) text rest = rw append_assoc (
    read_chars-escape_char c text (quoted value ++ rest)
    ∙ read_chars-quoted value (text ++ c ∷ []) rest
    ∙ rw append_assoc refl)

read_string-quoted :
    (value rest : Str) → read_string (quote ∷ quoted value ++ rest) ≡ some (value, rest)
unfolding read_string
read_string-quoted value rest = read_chars-quoted value [] rest

-- What `push_value` appends.
abbrev printed : Value → Str
printed (string value) = quote ∷ quoted value
printed (number value) = to_string value
printed null = codes "null"

push_value-printed :
    (output : Str) (value : Value) → push_value output value ≡ output ++ printed value
unfolding push_value
push_value-printed output (string value) = push_string-quoted output value
push_value-printed output (number value) = refl
push_value-printed output null = refl

read_value-digit : (d : ℕ) (s : Str) → IsDigit d → read_value (d ∷ s) ≡ read_number (d ∷ s)
unfolding read_value read_string
read_value-digit d s h = ground arith

read_number-to_string :
    (n c : ℕ) (rest : Str)
    → is_digit c ≡ false
    → read_value (to_string n ++ c ∷ rest) ≡ some (number n, c ∷ rest)
unfolding read_number
read_number-to_string n c rest h =
    let (d, more, e, k) = to_string-cons n in
    let back : read_digits 0 (d ∷ more ++ c ∷ rest) ≡ (n, c ∷ rest) =
      rw e at (read_digits-to_string n c rest h) in
    rw e (read_value-digit d _ k ∙ ground (arith, back))

-- A value stands before a character that is no digit.
read_value-printed :
    (value : Value) (c : ℕ) (rest : Str)
    → is_digit c ≡ false
    → read_value (printed value ++ c ∷ rest) ≡ some (value, c ∷ rest)
unfolding read_value
read_value-printed (string value) c rest h =
    rw (read_string-quoted value (c ∷ rest), read_value) refl
read_value-printed null c rest h = unfold read_string in refl
read_value-printed (number value) c rest h = read_number-to_string value c rest h

-- What a round of the loop of `line` appends.
abbrev printed_field : Str × Value → Str
printed_field (name, value) = b',' ∷ quote ∷ quoted name ++ b':' ∷ printed value

abbrev printed_fields : List (Str × Value) → Str
printed_fields [] = []
printed_fields (field ∷ fields) = printed_field field ++ printed_fields fields

push_fields-printed :
    (output : Str) (fields : List (Str × Value))
    → push_fields output fields ≡ output ++ printed_fields fields
unfolding push_fields
push_fields-printed output [] = sym (append-nil output)
push_fields-printed output ((name, value) ∷ fields) =
    push_fields-printed (push_value (push_string (output ++ b',' ∷ []) name ++ b':' ∷ []) value)
      fields
    ∙ simp (push_value-printed, push_string-quoted, append_assoc)

line-printed :
    (event : Str) (fields : List (Str × Value))
    → line event fields ≡ head ++ quote ∷ quoted event ++ (printed_fields fields ++ b'}' ∷ [])
unfolding line
line-printed event fields = simp (push_fields-printed, push_string-quoted, append_assoc)

-- A member stands before the comma of the next one, or before the brace.
read_field-printed :
    (field : Str × Value) (c : ℕ) (rest : Str)
    → is_digit c ≡ false
    → read_field (printed_field field ++ c ∷ rest) ≡ some (field, c ∷ rest)
unfolding read_field
read_field-printed (name, value) c rest h =
    rw (append_assoc (quoted name), read_string-quoted name (b':' ∷ printed value ++ c ∷ rest))
      (rw (read_value-printed value c rest h) refl)

after_field :
    (fields : List (Str × Value))
    → (c : ℕ) × (rest : Str) × (printed_fields fields ++ b'}' ∷ [] ≡ c ∷ rest)
      × (is_digit c ≡ false)
after_field [] = (b'}', [], refl, refl)
after_field ((name, value) ∷ fields) = (b',', _, refl, refl)

length-printed_fields :
    (fields : List (Str × Value)) → length fields ≤ length (printed_fields fields)
length-printed_fields [] = omega arith
length-printed_fields (field ∷ fields) = omega (
  arith,
  length-printed_fields fields,
  length-append (printed_field field) (printed_fields fields),
)

read_fields-printed :
    (fuel : ℕ) (fields : List (Str × Value))
    → length fields < fuel
    → read_fields fuel (printed_fields fields ++ b'}' ∷ []) ≡ some fields
unfolding read_fields
read_fields-printed zero fields h = elim h [ ]
read_fields-printed (suc fuel) [] h = unfold read_field in refl
read_fields-printed (suc fuel) (field ∷ fields) h =
    let (c, rest, e, k) = after_field fields in
    let ih = rw e at (read_fields-printed fuel fields (omega arith)) in
    rw (append_assoc (printed_field field) (printed_fields fields) _, e)
      (rw (read_field-printed field c rest k, read_fields) (rw (ih, read_fields) refl))

-- Every line that the program prints is one JSON object of the schema, and the reader finds in it
-- the event and the fields that were given, in their order: names and texts with any characters,
-- numbers of any size, and nulls.
pub read_line-line :
    (event : Str) (fields : List (Str × Value))
    → read_line (line event fields) ≡ some (event, fields)
unfolding read_line
read_line-line event fields =
    let body = quote ∷ quoted event ++ (printed_fields fields ++ b'}' ∷ []) in
    let fits : length fields < length (head ++ body) = omega (
      arith,
      length-printed_fields fields,
      length-append (quote ∷ quoted event) (printed_fields fields ++ b'}' ∷ []),
      length-append (printed_fields fields) (b'}' ∷ []),
    ) in
    rw (line-printed, read_string-quoted event (printed_fields fields ++ b'}' ∷ []))
      (rw (read_fields-printed _ fields fits) refl)
