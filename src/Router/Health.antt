-- ===== src/Router/Health.antt =====
-- router/health.py: the breaker of one deployment, and the tracker of all of them.
pub mod Breaker
pub mod Tracker
pub mod Score
pub mod Examples
