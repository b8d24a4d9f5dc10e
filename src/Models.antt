-- ===== src/Models.antt =====
-- models/: which deployments are allowed to serve production traffic.
pub mod Promotion
