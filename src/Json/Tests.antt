-- ===== src/Json/Tests.antt =====
-- The tests of src/json.rs, and instances of the theorems.
use ii.Prelude.{◌≡◌, refl, [], ◌∷◌, List, ◌++◌, some}
use ii.Prelude.Text.{Str, codes}
use ii.Prelude.Number.{to_string, max_u64}
use ii.Json.{
  Value, string, number, null, push_string, push_chars, escape_char, hex4, hex_digit, push_value,
  push_fields, line,
}
use ii.Json.Reader.{read_line}
use ii.Json.ReadBack.{read_line-line}

printer : Unit {0}
unfolding line push_fields push_value push_string push_chars escape_char hex4 hex_digit to_string
printer = tt

strings_escape_json_controls :
    push_string [] (codes "quote\" slash\\ newline" ++ 10 ∷ 1 ∷ [])
    ≡ codes "\"quote\\\" slash\\\\ newline\\n\\u0001\""
unfolding printer
strings_escape_json_controls = refl

abbrev fields : List (Str × Value)
fields =
    (codes "ticket", string (codes "ii1example"))
    ∷ (codes "bytes", number max_u64)
    ∷ (codes "size", null)
    ∷ []

lines_have_the_fixed_schema :
    line (codes "ticket") fields
    ≡ codes
        "{\"schema\":\"ii.event/v1\",\"event\":\"ticket\",\"ticket\":\"ii1example\",\"bytes\":18446744073709551615,\"size\":null}"
unfolding printer
lines_have_the_fixed_schema = refl

read_line-line_example : read_line (line (codes "ticket") fields) ≡ some (codes "ticket", fields)
read_line-line_example = read_line-line (codes "ticket") fields
