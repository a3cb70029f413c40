-- ===== src/CommsLog/Writer.antt =====
-- commslog.go: the writer goroutine `writeLoop` beside the callers of `Emit` and `Close`. A move is
-- what one goroutine does under the mutex, or one answer of the sink; a history is a list of moves.
use sessionbus.Base.{
  Bool, List, Option, [], false, if◌then◌else◌, none, some, true, u64, ℕ, ◌++◌, ◌+◌, ◌∷◌,
}
use sessionbus.Base.Int.{pos, ◌-ℤ◌}
use sessionbus.CommsLog.Events.{Event}
use sessionbus.CommsLog.Options.{Options}
use sessionbus.CommsLog.Queue.{close, emit, fail, raw_length, take}
use sessionbus.CommsLog.State.{Bytes, DiskRecord, Err, Logger, QueuedRecord, new_logger}

-- Where the writer stands: before `take`, at `<-l.notify`, in `WriteRecord`, or returned.
pub data Phase : Type 0 where
  running waiting : Phase
  writing : QueuedRecord → Bytes → Phase
  stopped : Phase

pub record System : Type 0 where
  pub logger : Logger
  pub phase : Phase
  -- the lines that the sink accepted, oldest first
  pub disk : List Bytes
  -- the calls of the error callback
  pub callbacks : List Err

pub data Move : Type 0 where
  emits : Event → ℕ → Move
  closes : Move
  -- `take`, with what `sink.Close` returns if the log is finished
  takes : Option Err → Move
  -- the receive from `notify`
  wakes : Move
  -- `WriteRecord` returns nil
  writes : Move
  -- `WriteRecord` fails; what `sink.Close` returns then
  write_fails : Err → Option Err → Move

unfoldable pub init : Options → System
unfolding new_logger
init o = record { logger = new_logger o; phase = running; disk = []; callbacks = [] }

abbrev pub call : Option Err → List Err → List Err
call none cs = cs
call (some e) cs = cs ++ e ∷ []

-- `l.fail(err, current)`, after which the loop has returned.
unfoldable pub failed : System → Option Err → ℕ → System
unfolding fail
failed s err current =
    let (l, called) = fail s.logger err current in
    record s { logger = l; phase = stopped; callbacks = call called s.callbacks }

abbrev pub joined : Err → Option Err → Option Err
joined e none = some e
joined e (some c) = some (e ++ c)

-- After a record is on disk.
unfoldable pub settle : Logger → QueuedRecord → Bytes → Logger
unfolding ◌-ℤ◌
settle l r raw = record l {
  stats =
      if r.is_gap
      then record (l.stats) { gap_records = u64 (l.stats.gap_records + 1) }
      else record (l.stats) { written = u64 (l.stats.written + r.events) };
  queue_bytes = l.queue_bytes -ℤ pos (raw_length (some raw));
}

-- What `writeLoop` does with the answer of `take`.
unfoldable pub taken : System → Option Err → QueuedRecord → Bool → System
unfolding failed
taken s close_err r true = failed s close_err 0
taken s close_err r false = elim r.raw [
  | none ↦ record s { phase = waiting }
  | some raw ↦ record s { phase = writing r raw }
]

module _ (marshal : DiskRecord → Option Bytes) where
  -- The writer's moves; one that its phase does not allow changes nothing.
  unfoldable pub writer : System → Phase → Move → System
  unfolding taken take failed settle
  writer s running (takes close_err) =
      let (l, r, done) = take marshal s.logger in taken (record s { logger = l }) close_err r done
  writer s waiting wakes =
      if s.logger.notify
      then record s { logger = record (s.logger) { notify = false }; phase = running }
      else s
  writer s (writing r raw) writes = record s {
    logger = settle s.logger r raw;
    phase = running;
    disk = s.disk ++ raw ∷ [];
  }
  writer s (writing r raw) (write_fails e close_err) = failed s (joined e close_err) r.events
  writer s _ _ = s

  unfoldable pub step : System → Move → System
  unfolding emit close writer
  step s (emits event at) = record s { logger = (emit marshal s.logger event at).0 }
  step s closes = record s { logger = close s.logger }
  step s (takes c) = writer s s.phase (takes c)
  step s wakes = writer s s.phase wakes
  step s writes = writer s s.phase writes
  step s (write_fails e c) = writer s s.phase (write_fails e c)

  unfoldable pub run : System → List Move → System
  unfolding step
  run s [] = s
  run s (m ∷ ms) = run (step s m) ms
