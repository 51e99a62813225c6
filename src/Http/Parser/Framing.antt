-- ===== src/Http/Parser/Framing.antt =====
-- The fields of a request that `read_web_request` of src/web/http.rs keeps beside its headers say
-- what the headers say.
use ii.Prelude.{
  ℕ, ◌≡◌, ◌∙◌, refl, sym, ap, subst, true, Option, List, [], ◌∷◌, ◌++◌, map, arith, Result, ok, err,
  ok_or, ◌>>=◌, bind_inverse, Bool-cases, if◌then◌else◌, inl, inr,
}
use ii.Prelude.Text.{Str, Bytes, codes, lower, eq_ignore_ascii_case, trim, split_once}
use ii.Http.Request.{WebRequest, find_header}
use ii.Http.Parser.{
  Reads, Parsed, next_length, next_range, add_header, parse_header, parse_headers, nothing_parsed,
  parse_head, parse_lines, read_web_request, request_line, split_lines, read_head,
}
use ii.Http.Parser.Fields.{
  LengthAgrees, RangeAgrees, length_other, length_new, range_other, range_new, not_range,
}

-- What a header adds agrees, if what was there did.
Agrees : Parsed → Type 0
Agrees p = LengthAgrees p.content_length p.headers × RangeAgrees p.range p.headers

length-Agrees :
    (p q : Parsed) (name value : Str) (n : Result (Option ℕ) Str)
    → eq_ignore_ascii_case name (codes "content-length") ≡ true
    → Agrees p
    → next_length p.content_length value ≡ n
    → (n >>= (λ length. ok (record {
      content_length = length;
      range = p.range;
      headers = p.headers ++ (map lower name, value) ∷ [];
    })))
      ≡ ok q
    → Agrees q
unfolding Agrees
length-Agrees p q name value (err x) f (l, r) g e = absurd (ground arith)
length-Agrees p q name value (ok length) f (l, r) g e =
    let same : q ≡ record {
      content_length = length;
      range = p.range;
      headers = p.headers ++ (map lower name, value) ∷ [];
    } =
      ground arith in
    subst Agrees (sym same) (
      length_new p.content_length length p.headers name value f l g,
      range_other p.range p.headers name value (not_range name f) r,
    )

range_next-Agrees :
    (p : Parsed) (name value : Str)
    → RangeAgrees p.range p.headers
    → RangeAgrees
        (if eq_ignore_ascii_case name (codes "range") then next_range p.range value else p.range)
        (p.headers ++ (map lower name, value) ∷ [])
range_next-Agrees p name value r = elim (Bool-cases (eq_ignore_ascii_case name (codes "range"))) [
  | inl e ↦ rw e (range_new p.range p.headers name value e r)
  | inr e ↦ rw e (range_other p.range p.headers name value e r)
]

add_header-Agrees :
    (p q : Parsed) (name value : Str) → Agrees p → add_header p name value ≡ ok q → Agrees q
unfolding add_header Agrees
add_header-Agrees p q name value (l, r) e =
    elim (Bool-cases (eq_ignore_ascii_case name (codes "content-length"))) [
      | inl f ↦
          length-Agrees p q name value (next_length p.content_length value) f (l, r) refl
            (rw (f, add_header) at e)
      | inr f ↦
          let same : q ≡ record {
            content_length = p.content_length;
            range =
                if eq_ignore_ascii_case name (codes "range")
                then next_range p.range value
                else p.range;
            headers = p.headers ++ (map lower name, value) ∷ [];
          } =
            ground arith in
          subst Agrees (sym same) (
            length_other p.content_length p.headers name value f l,
            range_next-Agrees p name value r,
          )
    ]

parse_header-Agrees : (p q : Parsed) (line : Str) → Agrees p → parse_header p line ≡ ok q → Agrees q
unfolding parse_header
parse_header-Agrees p q line a e =
    let (parts, first, rest) =
      bind_inverse (ok_or (split_once b':' line) (codes "request header is invalid"))
        (λ parts. add_header p parts.0 (trim parts.1)) q e in
    add_header-Agrees p q parts.0 (trim parts.1) a rest

parse_headers-Agrees :
    (lines : List Str) (p q : Parsed) → Agrees p → parse_headers p lines ≡ ok q → Agrees q
unfolding parse_headers
parse_headers-Agrees [] p q a e = let same : q ≡ p = ground arith in subst Agrees (sym same) a
parse_headers-Agrees (line ∷ lines) p q a e =
    let (m, first, rest) = bind_inverse (parse_header p line) (λ m. parse_headers m lines) q e in
    parse_headers-Agrees lines m q (parse_header-Agrees p m line a first) rest

-- What the request keeps of its headers.
abbrev pub IsConsistent : WebRequest → Type 0
IsConsistent request =
    LengthAgrees request.content_length request.headers × RangeAgrees request.range request.headers

parse_lines-IsConsistent :
    (lines : List Str) (body : Bytes) (request : WebRequest)
    → parse_lines lines body ≡ ok request
    → IsConsistent request
unfolding parse_lines Agrees find_header
parse_lines-IsConsistent [] body request h = absurd (ground arith)
parse_lines-IsConsistent (line ∷ lines) body request h =
    let (start, f, g) = bind_inverse (request_line line) _ request h in
    let (p, f2, g2) = bind_inverse (parse_headers nothing_parsed lines) _ request g in
    let agrees : Agrees p =
      parse_headers-Agrees lines nothing_parsed p (inl (refl, refl), refl) f2 in
    let same : request ≡ record {
      method = start.0;
      target = start.1;
      content_length = p.content_length;
      range = p.range;
      body = body;
      headers = p.headers;
    } =
      ground arith in
    subst IsConsistent (sym same) agrees

-- In every request that is read, the content length is absent exactly if no Content-Length header
-- is there, and else its value as a number of 64 bits; the range is absent exactly if no Range
-- header is there, and else its value, or invalid.
pub read_web_request-IsConsistent :
    (utf8_decode : Bytes → Option Str) (reads unread : Reads) (request : WebRequest)
    → read_web_request utf8_decode reads ≡ ok (request, unread)
    → IsConsistent request
unfolding read_web_request parse_head
read_web_request-IsConsistent utf8_decode reads unread request h =
    let (head, f, g) = bind_inverse (read_head reads []) _ (request, unread) h in
    let (text, f2, g2) =
      bind_inverse (ok_or (utf8_decode head.text) (codes "request is not UTF-8")) _
        (request, unread) g in
    let (r, f3, g3) = bind_inverse (parse_head text head.body) _ (request, unread) g2 in
    let same : r ≡ request = ground arith in
    parse_lines-IsConsistent (split_lines text) head.body request (f3 ∙ ap ok same)
