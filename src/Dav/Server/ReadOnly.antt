-- ===== src/Dav/Server/ReadOnly.antt =====
-- A read-only server of src/web/dav.rs, and one with a user name and a password.
use ii.Prelude.{◌≡◌, refl, true, false, some, Option-cases, inl, inr, arith, Result, ok, err}
use ii.Prelude.Text.{Str}
use ii.Http.Request.{WebRequest, web_token_path}
use ii.Dav.Path.{FilePath, dav_relative_path}
use ii.Dav.Auth.{BasicAuth, permits}
use ii.Dav.Handlers.{FileSystem, World}
use ii.Dav.Server.{
  Setting, Connection, Config, dispatch, serve_dav_connection, write_basic_auth_required,
  request_path_of, is_denied,
}

module _ {S : Type 0} (fs : FileSystem S) (setting : Setting S) where
  dispatch-read_only :
      (config : Config) (c : Connection) (world : World S) (relative : FilePath)
      (request : WebRequest)
      → config.read_only ≡ true
      → (dispatch fs setting config c world relative request).0 ≡ world
  unfolding dispatch
  dispatch-read_only config c world relative request h = ground arith

  -- A read-only server changes neither a file nor the lock table, whatever the request is.
  pub serve-read_only :
      (config : Config) (c : Connection) (world : World S) (parsed : Result WebRequest Str)
      → config.read_only ≡ true
      → (serve_dav_connection fs setting config c world parsed).0 ≡ world
  unfolding serve_dav_connection
  serve-read_only config c world (err e) h = refl
  serve-read_only config c world (ok request) h =
      elim (Option-cases (web_token_path config.token (request_path_of request.target))) [
        | inl e ↦ ground arith
        | inr (path, e) ↦ elim (Option-cases (dav_relative_path setting.percent_decode path)) [
          | inl f ↦ ground arith
          | inr (relative, f) ↦ ground (arith, dispatch-read_only config c world relative request)
        ]
      ]

  -- A server with a user name and a password answers a request without them by 401, and changes
  -- neither a file nor the lock table.
  pub serve-unauthorized :
      (config : Config) (c : Connection) (world : World S) (request : WebRequest) (auth : BasicAuth)
      → config.basic_auth ≡ some auth
      → permits setting.base64_decode auth request ≡ false
      → serve_dav_connection fs setting config c world (ok request)
        ≡ (world, some write_basic_auth_required)
  unfolding serve_dav_connection is_denied
  serve-unauthorized config c world request auth h k = rw (h, is_denied) (rw k refl)
