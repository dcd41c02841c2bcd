-- ===== src/Agents.antt =====
-- platform-src/agentdev/agents: what drivers describe, and the Codex and Cursor drivers.
pub mod Specs
pub mod Plain
pub mod Declared
pub mod Codex
pub mod Cursor
pub mod Registry
pub mod State
pub mod Adapters
