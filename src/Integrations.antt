-- ===== src/Integrations.antt =====
-- The adapters of integrations/.
pub mod RandomControl
pub mod RtlVerify
