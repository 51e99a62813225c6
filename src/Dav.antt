-- ===== src/Dav.antt =====
-- src/web/dav.rs: the WebDAV server. A path is the list of its components behind the file system
-- root, as on Unix. An instant is a number of nanoseconds.
pub mod Path
pub mod Auth
pub mod Locks
pub mod Handlers
pub mod Transfer
pub mod Locking
pub mod Server
mod Tests
