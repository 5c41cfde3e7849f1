-- ===== src/Vcp.antt =====
-- vcp: the device protocol, from the manifest over the grant to the command and the session.
pub mod Manifest
pub mod Grant
pub mod Issued
pub mod Command
pub mod Session
mod Examples
