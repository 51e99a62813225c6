-- ===== src/Web.antt =====
-- The pages and files of the web server: src/web/directory.rs.
pub mod Range
pub mod Target
pub mod Directory
mod Tests
