-- ===== src/Tests.antt =====
-- Runs of the models on small inputs, and the theorems applied to them.
mod Escrows
mod Consensus
mod Governance
mod Tracking
mod Orders
mod Tasks
mod Payments
mod Lightning
mod Dao
mod Reputation
mod Hardening
mod Mesh
mod Training
mod Bitcoin
mod Firecracker
