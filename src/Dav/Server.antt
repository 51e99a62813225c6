-- ===== src/Dav/Server.antt =====
-- `serve_dav_connection` of src/web/dav.rs: from a request to its handler. What the server takes
-- from other code is the record `Setting`; the responses to GET and HEAD are those of
-- src/web/directory.rs.
pub mod ReadOnly
use ii.Prelude.{
  ℕ, ◌≡◌, Bool, true, false, not, ◌&&◌, ◌||◌, Option, none, some, List, [], ◌∷◌, ◌++◌, is_some,
  if◌then◌else◌, and_then, or_else, Result, ok, err,
}
use ii.Prelude.Text.{Str, Bytes, codes, str_eq, split}
use ii.Http.Request.{WebRequest, header, web_token_path}
use ii.Http.Response.{Response, write_web_response, write_web_error, plain_text}
use ii.Dav.Path.{FilePath, dav_relative_path, existing_target}
use ii.Dav.Auth.{BasicAuth, permits}
use ii.Dav.Handlers.{FileSystem, World, Outcome, error, put, mkcol, delete}
use ii.Dav.Transfer.{Instants, move_or_copy}
use ii.Dav.Locking.{lock, unlock, proppatch}

pub record Setting (S : Type 0) : Type 0 where
  pub percent_decode : Str → Option Str
  pub percent_encode : Str → Str
  pub url_path : Str → Option Str
  pub base64_decode : Str → Option Bytes
  -- `write_directory` of src/web/directory.rs and `prop_response` of this file.
  pub write_directory : S → WebRequest → Bool → Option Response
  pub prop_response : S → FilePath → Option Str

-- What changes from one connection to the next: the instants of the clock, a fresh lock token, and
-- what is read of the body of a PUT request.
pub record Connection : Type 0 where
  pub now : ℕ
  pub instants : Instants
  pub later : ℕ
  pub fresh : Str
  pub received : Result Bytes Str

-- The arguments of the server.
pub record Config : Type 0 where
  pub root : FilePath
  pub token : Option Str
  pub read_only : Bool
  pub basic_auth : Option BasicAuth

-- The part of the target before the first question mark.
unfoldable pub request_path_of : Str → Str
request_path_of target = elim (split b'?' target) [ [] ↦ target | part ∷ parts ↦ part ]

abbrev forbidden : Response
forbidden = error (codes "403 Forbidden") (codes "DAV is read-only")

unfoldable pub write_basic_auth_required : Response
write_basic_auth_required = record {
  status = codes "401 Unauthorized";
  content_type = plain_text;
  headers = codes "WWW-Authenticate: Basic realm=\"ii dav\", charset=\"UTF-8\"\r\n";
  body = codes "authentication required";
}

unfoldable pub write_options : Bool → Response
write_options read_only = record {
  status = codes "200 OK";
  content_type = plain_text;
  headers =
      codes "DAV: 1, 2\r\nAllow: "
      ++ (if read_only
          then codes "OPTIONS, PROPFIND, GET, HEAD, PROPPATCH"
          else codes
              "OPTIONS, PROPFIND, GET, HEAD, PUT, MKCOL, DELETE, MOVE, COPY, LOCK, UNLOCK, PROPPATCH")
      ++ codes "\r\nMS-Author-Via: DAV\r\n";
  body = [];
}

module _ {S : Type 0} (fs : FileSystem S) (setting : Setting S) where
  -- The responses for the entries, one after the other; an error of one is an error of all.
  prop_responses : S → List FilePath → Option Str
  prop_responses files [] = some []
  prop_responses files (entry ∷ entries) =
      and_then (setting.prop_response files entry)
        λ text. and_then (prop_responses files entries) λ rest. some (text ++ rest)

  multistatus : S → List FilePath → Option Response
  multistatus files entries = and_then (prop_responses files entries) λ text. some (
      write_web_response (codes "207 Multi-Status") (codes "application/xml; charset=utf-8") (
        codes "<?xml version=\"1.0\" encoding=\"utf-8\"?><d:multistatus xmlns:d=\"DAV:\">"
        ++ text
        ++ codes "</d:multistatus>"))

  -- The target, and with `children` what a directory holds.
  prop_entries : S → FilePath → Bool → Option (List FilePath)
  prop_entries files target children =
      if not children
      then some (target ∷ [])
      else and_then (fs.is_dir files target) λ directory.
        if not directory
        then some (target ∷ [])
        else and_then (fs.read_dir files target) λ entries. some (target ∷ entries)

  unfoldable pub propfind : S → FilePath → FilePath → WebRequest → Option Response
  unfolding prop_responses multistatus prop_entries
  propfind files root relative request =
      let depth = or_else (header request (codes "depth")) (codes "infinity") in
      if not (str_eq depth (codes "0") || str_eq depth (codes "1"))
      then some (error (codes "403 Forbidden") (codes "Depth must be 0 or 1"))
      else elim (existing_target (fs.canonicalize files) root relative) [
        | none ↦ some (error (codes "404 Not Found") (codes "not found"))
        | some target ↦
            and_then (prop_entries files target (str_eq depth (codes "1"))) (multistatus files)
      ]

  -- The match on the method.
  unfoldable pub dispatch : Config → Connection → World S → FilePath → WebRequest → Outcome S
  dispatch config c world relative request =
      let is = str_eq request.method in
      let root = config.root in
      if is (codes "OPTIONS")
      then (world, some (write_options config.read_only))
      else if is (codes "PROPFIND")
      then (world, propfind world.files root relative request)
      else if is (codes "GET") || is (codes "HEAD")
      then (world, setting.write_directory world.files request (is (codes "HEAD")))
      else if is (codes "PUT")
      then if config.read_only
        then (world, some forbidden)
        else put fs c.now world root relative request c.received
      else if is (codes "MKCOL")
      then if config.read_only
        then (world, some forbidden)
        else mkcol fs c.now world root relative request
      else if is (codes "DELETE")
      then if config.read_only
        then (world, some forbidden)
        else delete fs c.now world root relative request
      else if is (codes "MOVE") || is (codes "COPY")
      then if config.read_only
        then (world, some forbidden)
        else move_or_copy fs setting.url_path setting.percent_decode c.instants world root relative
            config.token request (is (codes "MOVE"))
      else if is (codes "LOCK")
      then if config.read_only
        then (world, some forbidden)
        else lock fs setting.percent_encode c.now c.later c.fresh world root relative config.token
            request
      else if is (codes "UNLOCK")
      then if config.read_only
        then (world, some forbidden)
        else unlock fs c.now world root relative request
      else if is (codes "PROPPATCH")
      then (world, some (proppatch setting.percent_encode config.token relative))
      else (world, some (error (codes "405 Method Not Allowed") (codes "method not allowed")))

  unfoldable pub is_denied : Option BasicAuth → WebRequest → Bool
  is_denied none request = false
  is_denied (some auth) request = not (permits setting.base64_decode auth request)

  -- `parsed` is what `read_web_request` made of the bytes of the connection.
  unfoldable pub serve_dav_connection :
      Config → Connection → World S → Result WebRequest Str → Outcome S
  serve_dav_connection config c world (err e) =
      (world, some (error (codes "400 Bad Request") (codes "bad request: " ++ e)))
  serve_dav_connection config c world (ok request) =
      if is_denied config.basic_auth request
      then (world, some write_basic_auth_required)
      else elim (web_token_path config.token (request_path_of request.target)) [
        | none ↦ (world, some (error (codes "404 Not Found") (codes "not found")))
        | some path ↦ elim (dav_relative_path setting.percent_decode path) [
          | none ↦ (world, some (error (codes "404 Not Found") (codes "not found")))
          | some relative ↦ dispatch config c world relative request
        ]
      ]
