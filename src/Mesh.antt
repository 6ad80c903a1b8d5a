-- ===== src/Mesh.antt =====
-- core/mesh_discovery.go, mesh_timeout.go and mesh_propagation.go: the nodes of a local network.
pub mod Peers
pub mod Tasks
pub mod Log
mod Tests
