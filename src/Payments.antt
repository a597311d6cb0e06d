-- ===== src/Payments.antt =====
-- src/payments: the hold invoices and the hash time-locked contracts.
pub mod Hodl
pub mod Htlc
