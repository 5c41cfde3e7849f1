-- ===== src/Mesh.antt =====
-- sovereign-types/src/mesh_envelope.rs: the compact binary envelope of the LoRa control plane.
-- A byte is a number below 256, an array or a `Vec` of bytes is a list. SHA-256 is a parameter.
pub mod Codec
pub mod RoundTrip
pub mod Bounds
mod Examples
