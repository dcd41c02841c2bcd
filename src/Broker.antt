-- ===== src/Broker.antt =====
-- The broker: request handlers, and the dispatch of requests.
pub mod TaskOps
pub mod ProjectOps
pub mod Rpc
pub mod RunPlan
