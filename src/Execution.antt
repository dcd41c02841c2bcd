-- ===== src/Execution.antt =====
-- Execution plans: what the broker hands to a runtime backend.
pub mod Mounts
pub mod Plan
