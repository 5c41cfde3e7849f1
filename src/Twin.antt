-- ===== src/Twin.antt =====
-- twin-protocol: proofs of simulation, and the twin asset with its receipts and its anchor.
pub mod Simulation
pub mod Proof
pub mod Binding
pub mod Engine
pub mod Rollout
pub mod Attested
pub mod Witnessed
pub mod Asset
pub mod Receipts
pub mod Anchor
pub mod Gated
pub mod Timeline
pub mod Chronology
pub mod License
pub mod Unbound
mod Examples
mod Tests
