-- ===== src/Roster.antt =====
-- The operator's roster of all hosts (bus/internal/roster/roster.go).
pub mod Decode
pub mod Unique
mod Tests
