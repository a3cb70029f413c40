-- ===== src/Session.antt =====
-- A session of the daemon (bus/internal/daemon: session.go, delivery_queue.go, lane.go and the runs of
-- policy.go): the requests that it sends to its worker or peer, the runs that it reserves, and the
-- deliveries that wait for a run.
pub mod State
pub mod Reservations
pub mod Closing
pub mod Issue
pub mod Responses
pub mod History
pub mod Capacity
pub mod Accounting
pub mod Promises
pub mod Records
pub mod Moves
pub mod Draining
pub mod Exhaustion
pub mod Answers
pub mod Answering
pub mod Issuing
pub mod Replies
pub mod Settling
pub mod Once
pub mod Ending
pub mod Lifetime
mod Tests
