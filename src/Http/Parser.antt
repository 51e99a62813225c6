-- ===== src/Http/Parser.antt =====
-- `read_web_request` of src/web/http.rs. The bytes of a connection come in reads: `none` is one that
-- fails, and an empty one is the end. Decoding of UTF-8 is a parameter.
pub mod Segments
pub mod Fields
pub mod Framing
use ii.Prelude.{
  ℕ, ◌≡◌, Bool, true, false, not, ◌&&◌, ◌||◌, Option, none, some, List, [], ◌∷◌, ◌++◌, map, length,
  leb, ◌==◌, if◌then◌else◌, is_some, Result, ok, err, ok_or, ◌>>=◌,
}
use ii.Prelude.Text.{
  Str, Bytes, codes, str_eq, strip_prefix, before_cons, cons_part, split_once, trim, lower,
  eq_ignore_ascii_case,
}
use ii.Prelude.Number.{parse_uint, max_u64}
use ii.Http.Request.{WebRange, absent, ranged, invalid, WebRequest}

abbrev pub Reads : Type 0
Reads = List (Option Bytes)

-- The text of the headers, what was read of the body, and what is still to be read.
pub record Head : Type 0 where
  pub text : Bytes
  pub body : Bytes
  pub unread : Reads

abbrev pub blank_line : Bytes
blank_line = 13 ∷ 10 ∷ 13 ∷ 10 ∷ []

-- The first place of the blank line: the bytes before it and the bytes behind it.
abbrev pub here_or_later : ℕ → Option Bytes → Option (Bytes × Bytes) → Option (Bytes × Bytes)
here_or_later c (some after) later = some ([], after)
here_or_later c none later = before_cons c later

unfoldable pub find_end : Bytes → Option (Bytes × Bytes)
find_end [] = none
find_end (c ∷ s) = here_or_later c (strip_prefix blank_line (c ∷ s)) (find_end s)

abbrev too_long : Str
too_long = codes "request headers exceed 16 KiB"

abbrev ended : Str
ended = codes "request ended before headers"

abbrev pub max_head : ℕ
max_head = 16_384

-- The loop that reads until the blank line.
unfoldable pub read_head : Reads → Bytes → Result Head Str
read_head [] buffer = elim (find_end buffer) [
  | some (text, body) ↦ ok (record { text = text; body = body; unread = [] })
  | none ↦ if leb max_head (length buffer) then err too_long else err ended
]
read_head (read ∷ reads) buffer = elim (find_end buffer) [
  | some (text, body) ↦ ok (record { text = text; body = body; unread = read ∷ reads })
  | none ↦ if leb max_head (length buffer) then err too_long else elim read [
    | none ↦ err (codes "read web request")
    | some [] ↦ err ended
    | some (c ∷ chunk) ↦ read_head reads (buffer ++ c ∷ chunk)
  ]
]

-- `split("\r\n")`; `pending` tells that a carriage return has been read and not been written.
split_lines_from : Bool → Str → List Str
split_lines_from pending [] = (if pending then 13 ∷ [] else []) ∷ []
split_lines_from pending (c ∷ s) =
    let rest = split_lines_from (c == 13) s in
    let line = if c == 13 then rest else cons_part c rest in
    if pending && c == 10 then [] ∷ rest else if pending then cons_part 13 line else line

unfoldable pub split_lines : Str → List Str
unfolding split_lines_from
split_lines text = split_lines_from false text

is_ascii_whitespace : ℕ → Bool
is_ascii_whitespace c = c == 32 || c == 9 || c == 10 || c == 12 || c == 13

parts_of : Str → List Str
parts_of [] = [] ∷ []
parts_of (c ∷ s) =
    let rest = parts_of s in if is_ascii_whitespace c then [] ∷ rest else cons_part c rest

without_empty : List Str → List Str
without_empty [] = []
without_empty (part ∷ parts) =
    let rest = without_empty parts in if str_eq part [] then rest else part ∷ rest

unfoldable pub split_ascii_whitespace : Str → List Str
unfolding is_ascii_whitespace parts_of without_empty
split_ascii_whitespace text = without_empty (parts_of text)

-- The method and the target; the version is only looked for.
unfoldable pub request_line : Str → Result (Str × Str) Str
unfolding split_ascii_whitespace
request_line line = elim (split_ascii_whitespace line) [
  | [] ↦ err (codes "request method is missing")
  | method ∷ [] ↦ err (codes "request target is missing")
  | method ∷ target ∷ [] ↦ err (codes "request version is missing")
  | method ∷ target ∷ version ∷ [] ↦ ok (method, target)
  | method ∷ target ∷ version ∷ more ∷ parts ↦ err (codes "request line is invalid")
]

-- The variables of the loop over the header lines.
pub record Parsed : Type 0 where
  pub content_length : Option ℕ
  pub range : WebRange
  pub headers : List (Str × Str)

unfoldable pub next_range : WebRange → Str → WebRange
next_range absent value = ranged value
next_range (ranged first) value = invalid
next_range invalid value = invalid

unfoldable pub next_length : Option ℕ → Str → Result (Option ℕ) Str
next_length length value = do
  n ← ok_or (parse_uint max_u64 value) (codes "Content-Length is invalid")
  if is_some length then err (codes "Content-Length is duplicated") else ok (some n)

-- A header with its name and its value, the latter without white space around it.
unfoldable pub add_header : Parsed → Str → Str → Result Parsed Str
add_header p name value =
    let headers = p.headers ++ (map lower name, value) ∷ [] in
    if eq_ignore_ascii_case name (codes "content-length")
    then next_length p.content_length value
      >>= (λ length. ok (record { content_length = length; range = p.range; headers = headers }))
    else ok (record {
      content_length = p.content_length;
      range =
          if eq_ignore_ascii_case name (codes "range") then next_range p.range value else p.range;
      headers = headers;
    })

unfoldable pub parse_header : Parsed → Str → Result Parsed Str
parse_header p line = ok_or (split_once b':' line) (codes "request header is invalid") >>= λ parts.
    add_header p parts.0 (trim parts.1)

unfoldable pub parse_headers : Parsed → List Str → Result Parsed Str
parse_headers p [] = ok p
parse_headers p (line ∷ lines) = parse_header p line >>= λ q. parse_headers q lines

abbrev pub nothing_parsed : Parsed
nothing_parsed = record { content_length = none; range = absent; headers = [] }

-- The request in the lines of the headers, with what was read of the body.
unfoldable pub parse_lines : List Str → Bytes → Result WebRequest Str
parse_lines [] body = err (codes "request line is missing")
parse_lines (line ∷ lines) body = request_line line >>= λ start.
    parse_headers nothing_parsed lines >>= λ p. ok (record {
      method = start.0;
      target = start.1;
      content_length = p.content_length;
      range = p.range;
      body = body;
      headers = p.headers;
    })

unfoldable pub parse_head : Str → Bytes → Result WebRequest Str
parse_head text body = parse_lines (split_lines text) body

module _ (utf8_decode : Bytes → Option Str) where
  -- The request, and what is still to be read of its body.
  unfoldable pub read_web_request : Reads → Result (WebRequest × Reads) Str
  read_web_request reads = do
    head ← read_head reads []
    text ← ok_or (utf8_decode head.text) (codes "request is not UTF-8")
    request ← parse_head text head.body
    ok (request, head.unread)
