-- ===== src/Hub.antt =====
-- The federation hub (bus/internal/federation/hub.go): the link to one daemon, and the registry of links.
pub mod Link
pub mod Fates
pub mod Limits
pub mod Failed
pub mod Registry
pub mod Hosts
mod Tests
