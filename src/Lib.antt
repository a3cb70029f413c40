-- ===== src/Lib.antt =====
-- Verification of sessionbus: models of the bus's stateful parts, translated from the Go sources, and
-- the theorems that make them correct.
--
-- The program. A daemon (bus/internal/daemon) connects sessions: peers, and workers that run turns of
-- an agent product. A worker built on the Go SDK (bus/sdk/go) executes the runs that the daemon
-- reserves for it, keeps their results until they are acknowledged, and answers reads of them. The
-- operator communication log (bus/internal/commslog) records what the daemon routes, from any number
-- of goroutines, through a bounded queue to one writer. Hubs (bus/internal/federation) connect daemons.
--
-- Files.
--   Base, with Base/Lists, Base/Strings, Base/Int: the shared vocabulary. Numbers are natural numbers;
--     an unsigned counter of the source is reduced by `u64`; a signed one is the integer type of
--     Base/Int. A Go string is the list of its bytes (`Text`).
--   Protocol: the values of bus/sdk/go/protocol/types.go that the models share.
--   CommsLog: bus/internal/commslog/commslog.go. Events and Options hold the validation (validEvent,
--     validateOptions), State the Logger, Queue the operations Emit, take, fail and Close, Writer the
--     goroutine writeLoop. A move of Writer is one critical section of one goroutine, or one answer of
--     the sink; a list of moves is an interleaving. The proofs stand in Tiling and Order (what the
--     lines on disk cover), Conservation (counters), Wakeups, Shutdown, Bounds, Privacy and Accepted
--     (options).
--     File is the rotating file of bus/internal/commslog/file.go (WriteRecord, rotate) with a fault for
--     every system call; Rotation, Loss, Records and Sizes hold its proofs.
--   Runs/RunId: the run identifiers that reserveRun (bus/internal/daemon/policy.go) prints and
--     runSequence (bus/sdk/go/runs.go) reads.
--   Worker: bus/sdk/go/worker.go and runs.go. Runs holds the handlers (execute, runTurn's publication,
--     readRun, ackRun, turn.interrupt, message.deliver, session.close), History the histories of a
--     worker, Records, Retention and Acks the proofs.
--   Conn: bus/internal/conn/conn.go. Socket holds Post, Send, Finish, Close and OwnerClosed, History the
--     goroutines read and write beside the owner's loop, Writes the loop writeFull. A channel operation
--     that would panic is `none`. Outbox and Finish hold the proofs.
--   Daemon: bus/internal/daemon. Policy is normalizePolicy of policy.go, with its proofs in Lifetimes;
--     Names is the part of helpers.go on names and hosts, Groups that on groups and options.
--   Session: the loop of a session of the daemon (bus/internal/daemon: session.go, delivery_queue.go,
--     lane.go, the runs of policy.go, and what they do to an entry of directory.go). State holds the
--     session and its entry, Reservations the deadlines and runs (reserveRun, refuseRun,
--     hasRunCapacity, recordAcknowledgment), Closing the close of a lane, Issue the request that goes to
--     the worker (issue, startDeferredDelivery), Responses what comes back (receiveResponse, turnReady),
--     History the events of the loop, with what of installPeer, routeLocked and peerHello
--     (bus/internal/daemon/handlers.go) reaches a session. A move is one event; a channel `reply` is a
--     number. The proofs
--     stand in Capacity, Accounting, Promises, Records and Moves (the promises to the worker), Draining
--     and Exhaustion (the deliveries that wait), and Answers, Answering, Issuing, Replies,
--     Settling, Once, Ending and Lifetime (the answers on one channel).
--   Hub: bus/internal/federation/hub.go. Link is the loop of a hub's link to one daemon (hostLink.run,
--     frame, decodePendingReply): the calls to the daemon and what it calls; Fates, Limits and Failed
--     hold its proofs. Registry is the state that the hub keeps of its links (hubState: handle, forward,
--     reply, remove, ownerEnd), Hosts its proofs.
--   Rpc: bus/sdk/go/internal/rpc/rpc.go, the connection of an SDK program, and in Methods the method
--     table of bus/sdk/go/protocol/validate.go. Calls is the map of the calls under way, Connection the
--     operations and the reader; a move is what one goroutine does under the connection's mutexes. The
--     proofs stand in Once, Ids and Draining.
--   Roster: DecodeRemote of bus/internal/roster/roster.go in Decode, what it accepts in Unique.
--
-- Bounds. `format_digits` runs on twenty digits, which is enough for every 64-bit number. The Logger's
-- byte counts are integers that do not wrap, since a slice's length is far below 2 ^ 63. Counters wrap
-- at 2 ^ 64 and the theorems say so where it matters. `start_deferred` runs on the number of the
-- deliveries that wait, which is enough since no request that is issued makes one wait again.
--
-- Not modelled. JSON encoding is the parameter `marshal` of the log; that it does not fail on a gap
-- record is a hypothesis, `EncodesGaps`. JSON decoding is the parameter `decode` of Roster. Clocks, the
-- sink's and the file system's answers, and the products' callbacks are inputs of the moves; processes
-- and TLS have no model. Unicode's character classes are the parameter `valid` of Daemon/Names. Whether a
-- request encodes and is written is the parameter `accepts` of Session, and the random name of a
-- session's runs its parameter `fresh`. Of the requests that a session receives only turn.ready and
-- session.hello are modelled, and that the others are answered; the first identity of a peer, the
-- opening of a lane and the trace are left out, and a session's calls are settled in their order where
-- Go's map has none. The other handlers of the daemon, the directory's maps and the daemon's side of a
-- link have no model yet; of the hub's registry the sockets and the distribution of rosters are left out.
pub mod Base
pub mod CommsLog
pub mod Runs
pub mod Protocol
pub mod Worker
pub mod Daemon
pub mod Conn
pub mod Roster
pub mod Rpc
pub mod Session
pub mod Hub
