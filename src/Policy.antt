-- ===== src/Policy.antt =====
-- platform-src/agentdev/policy: the policy schema and what is computed from policies.
pub mod Choices
pub mod Checks
pub mod Schema
pub mod Resolver
pub mod Profiles
pub mod Capabilities
pub mod Legacy
