-- ===== src/Ucx.antt =====
-- ucx-protocol, ucx-broker and ucx-provider: the matching of compute jobs with providers.
pub mod Job
pub mod Broker
pub mod Matching
pub mod Score
pub mod Local
pub mod Jobs
mod Examples
