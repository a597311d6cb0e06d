-- ===== src/Bitcoin.antt =====
-- Bitcoin identities (src/bitcoin).
pub mod Identity
