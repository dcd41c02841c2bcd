-- ===== src/Runtime.antt =====
-- platform-src/agentdev/runtime: what a runtime backend is handed, and the Podman backend.
pub mod Control
pub mod Podman
pub mod Session
