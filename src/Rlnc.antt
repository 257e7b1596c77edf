-- ===== src/Rlnc.antt =====
-- crates/holofs-core/src/rlnc.rs: random linear network coding over GF(2^8), systematic mode.
pub mod Encode
pub mod Gauss
pub mod Linear
pub mod Pivot
pub mod Annihilate
pub mod Reduce
pub mod Solve
pub mod Solution
pub mod Consistent
pub mod Encoder
pub mod Encoded
pub mod Known
pub mod Reduction
pub mod Assembled
pub mod Systematic
pub mod Chunks
pub mod RoundTrip
pub mod Layer
pub mod LayerRoundTrip
pub mod Decode
pub mod Holes
mod Tests
