-- ===== src/Pipeline.antt =====
-- sovereign-pipeline: from a session with a device to receipts, a proof of simulation, an anchor and
-- the messages that announce them.
pub mod Bus
pub mod Broadcast
pub mod Capture
pub mod Granted
pub mod Linked
pub mod Chain
pub mod Announced
pub mod Complete
pub mod Anchored
mod Samples
mod Examples
