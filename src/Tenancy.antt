-- ===== src/Tenancy.antt =====
-- src/llm_fabric/tenancy: what belongs to one tenant, kept apart from the others.
pub mod Scope
pub mod Store
pub mod Quota
pub mod Examples
