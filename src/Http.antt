-- ===== src/Http.antt =====
-- src/web/http.rs: requests and responses of the web server and of the DAV server.
pub mod Request
pub mod Parser
pub mod Response
pub mod Escape
mod Tests
