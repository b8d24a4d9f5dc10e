-- ===== src/Router/Engine.antt =====
-- router/engine.py: the records of a routed request, `_Walk` and `Router.complete`.
pub mod Walk
pub mod Complete
pub mod Examples
