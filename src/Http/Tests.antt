-- ===== src/Http/Tests.antt =====
-- A run of the request parser of src/web/http.rs, and instances of the theorems.
use ii.Prelude.{◌≡◌, refl, ℕ, Option, some, List, [], ◌∷◌, ok, err, arith}
use ii.Prelude.Text.{Str, Bytes, codes}
use ii.Prelude.Number.{parse_uint}
use ii.Http.Request.{WebRequest, absent}
use ii.Http.Parser.{
  find_end, read_head, split_lines, split_ascii_whitespace, request_line, next_range, next_length,
  add_header, parse_header, parse_headers, parse_lines, parse_head, read_web_request,
}
use ii.Http.Parser.Segments.{reads_of, bytes_of, Found, read_head-segments}
use ii.Http.Parser.Framing.{IsConsistent, read_web_request-IsConsistent}

parser : Unit {0}
unfolding find_end read_head split_lines split_ascii_whitespace request_line next_range next_length
    add_header parse_header parse_headers parse_lines parse_head read_web_request
parser = tt

abbrev chunks : List (ℕ × Bytes)
chunks =
    (b'P', codes "UT /a HTTP/1.1\r\nHost: x\r")
    ∷ (10, codes "Content-Length: 3\r\n\r\nab")
    ∷ (b'c', [])
    ∷ []

abbrev text : Bytes
text = codes "PUT /a HTTP/1.1\r\nHost: x\r\nContent-Length: 3"

abbrev plain : Bytes → Option Str
plain bytes = some bytes

abbrev request : WebRequest
request = record {
  method = codes "PUT";
  target = codes "/a";
  content_length = some 3;
  range = absent;
  body = codes "ab";
  headers = (codes "host", codes "x") ∷ (codes "content-length", codes "3") ∷ [];
}

chunks_are_read :
    read_web_request plain (reads_of chunks) ≡ ok (request, reads_of ((b'c', []) ∷ []))
unfolding parser parse_uint
chunks_are_read = refl

lengths_are_not_repeated :
    read_web_request plain
      (some (codes "GET / HTTP/1.1\r\nContent-Length: 3\r\ncontent-length: 3\r\n\r\n") ∷ [])
    ≡ err (codes "Content-Length is duplicated")
unfolding parser parse_uint
lengths_are_not_repeated = refl

head_found : find_end (bytes_of chunks) ≡ some (text, codes "abc")
unfolding parser
head_found = refl

read_head-segments_example : Found chunks [] text (codes "abc")
read_head-segments_example = read_head-segments chunks text (codes "abc") head_found (omega arith)

read_web_request-IsConsistent_example : IsConsistent request
read_web_request-IsConsistent_example =
    read_web_request-IsConsistent plain (reads_of chunks) (reads_of ((b'c', []) ∷ [])) request
      chunks_are_read
