-- ===== src/Training.antt =====
-- The coordination of training (src/training).
pub mod Coordinator
