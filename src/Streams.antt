-- ===== src/Streams.antt =====
-- body/json.rs and body/cbor.rs: the bodies that stream arrays and maps; body/async_read.rs.
pub mod Json
pub mod Emitted
pub mod Cbor
pub mod Reader
pub mod Lengths
