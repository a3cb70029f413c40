-- ===== src/Rpc.antt =====
-- The SDK's request/response layer (bus/sdk/go/internal/rpc/rpc.go) and the methods that each side may
-- call (bus/sdk/go/protocol/validate.go).
pub mod Methods
pub mod Calls
pub mod Connection
pub mod Once
pub mod Ids
pub mod Draining
mod Tests
