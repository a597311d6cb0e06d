-- ===== src/Manufacturing.antt =====
-- src/manufacturing: purchase order escrows, supply chain tracking, and the orders that drive both.
pub mod Escrows
pub mod Tracking
pub mod Orders
