-- ===== src/Runs.antt =====
-- Managed runs: the identifiers that the daemon issues and the worker checks, the worker's retained
-- records (bus/sdk/go/runs.go) and the daemon's accounting of them (bus/internal/daemon).
pub mod RunId
mod Tests
