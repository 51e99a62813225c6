-- ===== src/Ticket.antt =====
-- src/ticket/mod.rs and src/ticket/model.rs: the tickets, their constructors and their accessors.
-- The endpoint address of the peer-to-peer library is the parameter `Endpoint`. A byte array of a
-- fixed length is a list of bytes.
pub mod Model
pub mod Codec
pub mod Routes
pub mod RoundTrip
mod Tests
