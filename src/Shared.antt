-- ===== src/Shared.antt =====
-- sovereign-types: the Merkle commitment over named fields.
pub mod Merkle
pub mod Leaves
pub mod Commitment
mod Examples
