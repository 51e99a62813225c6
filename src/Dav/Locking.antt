-- ===== src/Dav/Locking.antt =====
-- The handlers `lock`, `unlock` and `proppatch` of src/web/dav.rs, and the addresses in their
-- responses.
use ii.Prelude.{
  ℕ, ◌+◌, Bool, Option, none, some, List, [], ◌∷◌, ◌++◌, is_some, if◌then◌else◌, and_then, or_else,
  map,
}
use Prim.Native.Nat.{max, min}
use ii.Http.Escape.{xml_escape}
use ii.Prelude.Text.{Str, codes, strip_prefix}
use ii.Prelude.Number.{parse_uint, max_u64, to_string}
use ii.Http.Request.{WebRequest, header}
use ii.Http.Response.{Response, write_web_response}
use ii.Dav.Path.{
  FilePath, strip_path, existing_target, writable_target, existing_or_writable_target,
}
use ii.Dav.Locks.{nanoseconds, acquire, release, strip_lock_token}
use ii.Dav.Handlers.{FileSystem, World, Outcome, error, locked_423, no_content_204}

-- `web_root_path` of src/web/http.rs.
unfoldable pub web_root_path : Option Str → Str
web_root_path none = codes "/"
web_root_path (some token) = codes "/" ++ token ++ codes "/"

join_slash : List Str → Str
join_slash [] = []
join_slash (a ∷ []) = a
join_slash (a ∷ b ∷ parts) = a ++ b'/' ∷ join_slash (b ∷ parts)

-- `dav_relative_href`: the components, percent-encoded, behind the root path.
unfoldable pub dav_relative_href : (Str → Str) → FilePath → Option Str → Str
unfolding join_slash web_root_path
dav_relative_href percent_encode relative token =
    web_root_path token ++ join_slash (map percent_encode relative)

unfoldable pub dav_href : (Str → Str) → FilePath → FilePath → Option Str → Option Str
unfolding dav_relative_href
dav_href percent_encode root target token =
    and_then (strip_path root target)
      λ relative. some (dav_relative_href percent_encode relative token)

-- The Timeout header in seconds, at least one and at most an hour.
unfoldable pub lock_timeout : WebRequest → ℕ
lock_timeout request =
    let asked =
      and_then (header request (codes "timeout"))
        λ value. and_then (strip_prefix (codes "Second-") value) (parse_uint max_u64) in
    max 1 (min 3600 (or_else asked 3600))

unfoldable pub lock_body : ℕ → Str → Str → Str
lock_body timeout token_value href =
    codes
      "<?xml version=\"1.0\"?><d:prop xmlns:d=\"DAV:\"><d:lockdiscovery><d:activelock><d:locktype><d:write/></d:locktype><d:lockscope><d:exclusive/></d:lockscope><d:depth>infinity</d:depth><d:timeout>Second-"
    ++ to_string timeout
    ++ codes "</d:timeout><d:locktoken><d:href>"
    ++ xml_escape token_value
    ++ codes "</d:href></d:locktoken><d:lockroot><d:href>"
    ++ href
    ++ codes "</d:href></d:lockroot></d:activelock></d:lockdiscovery></d:prop>"

unfoldable pub lock_response : Bool → ℕ → Str → Str → Response
lock_response existed timeout token_value href = record {
  status = if existed then codes "200 OK" else codes "201 Created";
  content_type = codes "application/xml; charset=utf-8";
  headers = codes "Lock-Token: <" ++ token_value ++ codes ">\r\n";
  body = lock_body timeout token_value href;
}

unfoldable pub proppatch : (Str → Str) → Option Str → FilePath → Response
proppatch percent_encode token relative =
    write_web_response (codes "207 Multi-Status") (codes "application/xml; charset=utf-8") (
      codes "<?xml version=\"1.0\"?><d:multistatus xmlns:d=\"DAV:\"><d:response><d:href>"
      ++ dav_relative_href percent_encode relative token
      ++ codes
          "</d:href><d:propstat><d:prop/><d:status>HTTP/1.1 403 Forbidden</d:status></d:propstat></d:response></d:multistatus>")

module _ {S : Type 0} (fs : FileSystem S) where
  -- `later` is the instant when the lock is made, and `fresh` the text that the random generator
  -- gives for a new token.
  unfoldable pub lock :
      (Str → Str)
      → ℕ
      → ℕ
      → Str
      → World S
      → FilePath
      → FilePath
      → Option Str
      → WebRequest
      → Outcome S
  lock percent_encode now later fresh world root relative token request =
      let existed = is_some (existing_target (fs.canonicalize world.files) root relative) in
      elim (writable_target (fs.canonicalize world.files) root relative) [
        | none ↦ (world, some (error (codes "409 Conflict") (codes "parent directory is missing")))
        | some target ↦
            let timeout = lock_timeout request in
            let (locks, granted) =
              acquire now world.locks target request (later + nanoseconds timeout) fresh in
            (
              record world { locks = locks },
              elim granted [
                | none ↦ some locked_423
                | some token_value ↦ elim (dav_href percent_encode root target token) [
                  | none ↦ none
                  | some href ↦ some (lock_response existed timeout token_value href)
                ]
              ],
            )
      ]

  unfoldable pub unlock : ℕ → World S → FilePath → FilePath → WebRequest → Outcome S
  unlock now world root relative request =
      elim (existing_or_writable_target (fs.canonicalize world.files) root relative) [
        | none ↦ (world, some (error (codes "409 Conflict") (codes "lock target is unavailable")))
        | some target ↦
            let presented : Str = elim (header request (codes "lock-token")) [
              | none ↦ []
              | some value ↦ strip_lock_token value
            ] in
            let (locks, removed) = release now world.locks target presented in
            (
              record world { locks = locks },
              if removed
                  then some no_content_204
                  else some (error (codes "409 Conflict") (codes "lock token does not match")),
            )
      ]
