-- ===== src/Identity.antt =====
-- src/llm_fabric/identity: who a request comes from.
pub mod Revocation
