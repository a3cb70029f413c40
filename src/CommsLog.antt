-- ===== src/CommsLog.antt =====
-- The operator communication log (bus/internal/commslog/commslog.go): its events and options, the
-- bounded queue in front of the file, the writer loop, and the proofs about them.
pub mod Events
pub mod Options
pub mod State
pub mod Queue
pub mod Writer
pub mod Conservation
pub mod Tiling
pub mod Gaps
pub mod Wakeups
pub mod Shutdown
pub mod Order
pub mod Accepted
pub mod Bounds
pub mod Privacy
pub mod File
pub mod Rotation
pub mod Loss
pub mod Records
pub mod Sizes
mod Tests
mod FileTests
