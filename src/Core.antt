-- ===== src/Core.antt =====
-- platform-src/agentdev/core: names, paths, tasks, dependencies, worktrees and locks.
pub mod Names
pub mod Paths
pub mod Models
pub mod Records
pub mod Host
pub mod Projects
pub mod Dependencies
pub mod Worktrees
pub mod Locking
pub mod Tasks
pub mod Handoff
pub mod Exchange
