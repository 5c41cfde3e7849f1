-- ===== src/A2a.antt =====
-- sovereign-a2a: the task server of the agent-to-agent protocol.
pub mod Router
pub mod Dispatch
pub mod States
pub mod Tasks
pub mod Interleaved
mod Examples
