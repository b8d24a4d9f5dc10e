-- ===== src/Router/Fallback.antt =====
-- router/fallback.py: reasons, edges, the graph, the budget and its ledger.
pub mod Reason
pub mod Graph
pub mod Ledger
pub mod Classes
pub mod Examples
