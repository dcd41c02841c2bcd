-- ===== src/Tests.antt =====
-- Concrete policies, requests, plans and paths, and the theorems at these inputs.
pub mod Policies
pub mod Requests
pub mod Tasks
pub mod Sessions
pub mod Agents
pub mod Bundles
pub mod Runs
pub mod Adapters
