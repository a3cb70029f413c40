-- ===== src/Daemon.antt =====
-- The daemon (bus/internal/daemon): lane policies, names of sessions across hosts.
pub mod Policy
pub mod Lifetimes
pub mod Names
pub mod Groups
mod Tests
