-- ===== src/Upload.antt =====
-- src/web/upload.rs: the files that browsers send to the web server.
pub mod Query
pub mod Sessions
pub mod Chunks
pub mod Invariant
pub mod Assembly
mod Tests
