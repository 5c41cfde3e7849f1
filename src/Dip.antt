-- ===== src/Dip.antt =====
-- dip: the routing of the decentralised interop protocol.
pub mod Router
pub mod Decisions
pub mod Cascade
pub mod Envelope
pub mod Sealed
mod Examples
