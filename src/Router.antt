-- ===== src/Router.antt =====
-- router/: where a request goes, and where it goes next when a deployment cannot serve it.
pub mod Tiers
pub mod Capabilities
pub mod Fallback
pub mod Health
pub mod Registry
pub mod Policy
pub mod Intent
pub mod Engine
pub mod Plan
