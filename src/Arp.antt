-- ===== src/Arp.antt =====
-- arp-types and arp-broker: the store of action receipts and their chains.
pub mod Broker
pub mod Chain
pub mod Submissions
pub mod Race
pub mod Overwriting
mod Examples
