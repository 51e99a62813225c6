-- ===== src/Socks.antt =====
-- src/service/socks5.rs: the SOCKS5 proxy.
pub mod Address
pub mod Session
pub mod Relay
pub mod RoundTrip
pub mod Access
mod Tests
