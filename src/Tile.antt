-- ===== src/Tile.antt =====
-- The package tile: graphs of operations, the kernel that a graph is fused into, and what it computes.
pub mod Alias
pub mod Graph
pub mod Codegen
pub mod Run
mod Tests
