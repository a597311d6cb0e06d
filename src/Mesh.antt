-- ===== src/Mesh.antt =====
-- The mesh of nodes (src/mesh).
pub mod Routing
