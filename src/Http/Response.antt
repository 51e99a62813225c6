-- ===== src/Http/Response.antt =====
-- The responses of src/web/http.rs.
use ii.Prelude.{[], ◌++◌, length}
use ii.Prelude.Text.{Str, Bytes, codes}
use ii.Prelude.Number.{to_string}

-- The arguments of `write_web_response_with_headers`.
pub record Response : Type 0 where
  pub status : Str
  pub content_type : Str
  pub headers : Str
  pub body : Bytes

-- The bytes that `write_web_response_with_headers` sends.
unfoldable pub render : Response → Bytes
render r =
    codes "HTTP/1.1 "
    ++ r.status
    ++ codes "\r\nContent-Type: "
    ++ r.content_type
    ++ codes "\r\n"
    ++ r.headers
    ++ codes "Content-Length: "
    ++ to_string (length r.body)
    ++ codes "\r\nConnection: close\r\n\r\n"
    ++ r.body

abbrev pub plain_text : Str
plain_text = codes "text/plain; charset=utf-8"

abbrev pub write_web_response : Str → Str → Bytes → Response
write_web_response status content_type body = record {
  status = status;
  content_type = content_type;
  headers = [];
  body = body;
}

abbrev pub write_web_error : Str → Str → Response
write_web_error status message = write_web_response status plain_text message
