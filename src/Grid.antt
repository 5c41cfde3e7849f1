-- ===== src/Grid.antt =====
-- sovereign-types/src/odu.rs: the grid of 16 by 16 tiles.
pub mod Tile
pub mod Names
pub mod Neighbors
mod Examples
