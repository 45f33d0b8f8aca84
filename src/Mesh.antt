-- ===== src/Mesh.antt =====
-- packages/fallow-modelmesh: model chunks by content, their store, their exchange with peers.
pub mod Store
pub mod Custody
pub mod Rejection
pub mod Rebuild
pub mod Merkle
pub mod Levels
pub mod Commitment
pub mod Building
pub mod Publishing
mod Scenarios
