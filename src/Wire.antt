-- ===== src/Wire.antt =====
-- crates/holofs-wire/src/wire.rs: the binary protocol between clients and nodes.
pub mod ShardFormat
pub mod Request
pub mod Response
pub mod Frame
mod Tests
