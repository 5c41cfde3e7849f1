-- ===== src/Node.antt =====
-- sovereign-node: the bookkeeping of capture jobs and swarms.
pub mod Swarm
pub mod Summary
pub mod Monitor
mod Examples
