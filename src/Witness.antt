-- ===== src/Witness.antt =====
-- witness-types and witness-broker: observations and their attestations.
pub mod Broker
pub mod Kept
