-- ===== src/Runtime.antt =====
-- sovereign-runtime: the chain Principal → Capability → Authorization → Execution → Receipt, and
-- the gates of the machine layer. A JSON value is its serialised text, a clock reading and a fresh
-- UUID are arguments.
pub mod Identity
pub mod Principal
pub mod Capability
pub mod Safety
pub mod Receipt
pub mod Execution
pub mod Embodiment
mod Examples
