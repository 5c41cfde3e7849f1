-- ===== src/Emission.antt =====
-- twin-protocol/src/emission.rs: the allocator that turns the proof claims of a minute into a mint
-- authorisation. Float arithmetic and SHA-256 are parameters.
pub mod Allocator
pub mod Shares
pub mod Claims
pub mod Settlement
mod Examples
