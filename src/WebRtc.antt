-- ===== src/WebRtc.antt =====
-- The signalling server of src/web/webrtc.rs.
pub mod State
pub mod Query
pub mod Server
pub mod Entries
pub mod Calls
pub mod Waiting
pub mod Presence
pub mod Delivery
pub mod Bounds
mod Tests
