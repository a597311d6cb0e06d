-- ===== src/Security.antt =====
-- The hardening layer of the node (src/security).
pub mod Window
pub mod Counts
pub mod Lightning
pub mod Network
pub mod Agreement
pub mod Firecracker
