-- ===== src/Worker.antt =====
-- The reference worker of the Go SDK (bus/sdk/go/worker.go and runs.go): the runs it executes and the
-- records that it keeps until they are acknowledged.
pub mod Runs
pub mod Records
pub mod History
pub mod Retention
pub mod Acks
mod Tests
