-- ===== src/Worker/Runs.antt =====
-- runs.go, and the run slot of worker.go: a request handler takes the worker under its mutex and
-- returns the new worker and the code that it answers.
use sessionbus.Base.{
  Bool, List, Option, Text, [], codes, false, if◌then◌else◌, is_empty, is_some, leb, length, none,
  not, rest, some, text_eq, true, u64, ℕ, ◌&&◌, ◌++◌, ◌+◌, ◌-◌, ◌==◌, ◌||◌, ◌∷◌,
}
use sessionbus.Protocol.{
  Code, ReadRequest, RunRef, RunState, RunStatus, TurnResult, busy, done, invalid_frame, is_ok,
  max_operations, no_error, not_running, running, unavailable, unknown_session,
}
use sessionbus.Runs.RunId.{run_sequence}

-- `workerRecord`.
pub record Record : Type 0 where
  pub status : RunStatus
  pub sequence : ℕ

-- `*Run`: the slot of an executing run, or the empty one that `session.close` installs, whose `done`
-- channel is nil. `run_of` is the sequence number of the run that the slot is for.
pub data Slot : Type 0 where
  executing : (run_of : ℕ) (interrupted cancelled : Bool) → Slot
  closing : Slot

pub record Worker : Type 0 where
  pub session_id : Text
  pub records : List Record
  pub generation : Text
  pub last_sequence : ℕ
  pub acknowledged : ℕ
  pub waiters : ℕ
  pub run : Option Slot
  pub opened : Bool
  -- the connection is closed
  pub hung_up : Bool

unfoldable pub new_worker : Worker
new_worker = record {
  session_id = [];
  records = [];
  generation = [];
  last_sequence = 0;
  acknowledged = 0;
  waiters = 0;
  run = none;
  opened = false;
  hung_up = false;
}

-- The end of `open`, for a session that the product has opened; `suffix` is the `@host` of the name.
unfoldable pub open_session : Worker → Text → Text → Worker
open_session w id suffix = record w { session_id = id ++ suffix; opened = true }

unfoldable pub is_running : RunState → Bool
is_running running = true
is_running done = false
is_running unavailable = false

abbrev pub new_record : Text → Text → ℕ → Record
new_record session_id run_id sequence = record {
  status = record {
    session_id = session_id;
    run_id = run_id;
    state = running;
    result = none;
    reason = [];
  };
  sequence = sequence;
}

-- The `switch` of `execute`.
unfoldable pub execute_code : Worker → Text → Text → ℕ → Bool → Code
execute_code w session_id prefix sequence valid =
    if not w.opened || is_some w.run || leb max_operations (length w.records)
    then busy
    else if not (text_eq session_id w.session_id)
        || not valid
        || not (is_empty w.generation) && not (text_eq w.generation prefix)
        || not (sequence == u64 (w.last_sequence + 1))
    then invalid_frame
    else no_error

unfoldable pub start_run : Worker → RunRef → Text → ℕ → Worker
start_run w ref prefix sequence = record w {
  generation = prefix;
  last_sequence = sequence;
  records = w.records ++ new_record ref.session_id ref.run_id sequence ∷ [];
  run = some (executing sequence false false);
}

-- `execute`, for a caller's input or for the delivery that seeds a run (where `ref` holds the
-- worker's own session).
unfoldable pub execute : Worker → RunRef → Worker × Code
unfolding execute_code start_run
execute w ref =
    if not w.opened
    then (w, busy)
    else let (prefix, sequence, valid) = run_sequence ref.run_id in
      let code = execute_code w ref.session_id prefix sequence valid in
      if is_ok code then (start_run w ref prefix sequence, no_error) else (w, code)

-- The terminal status of a run: `valid` is what the two validations of the source say.
unfoldable pub terminal_status : RunStatus → Option TurnResult → Text → Bool → RunStatus
terminal_status s none failure valid =
    if valid then record s { state = unavailable; result = none; reason = failure } else record s {
      state = unavailable;
      result = none;
      reason = codes "native result failed validation";
    }
terminal_status s (some result) failure valid =
    if valid then record s { state = done; result = some result } else record s {
      state = unavailable;
      result = none;
      reason = codes "native result failed validation";
    }

unfoldable pub settle_record : ℕ → (RunStatus → RunStatus) → List Record → List Record
settle_record sequence f [] = []
settle_record sequence f (r ∷ rs) =
    (if r.sequence == sequence then record r { status = f r.status } else r)
    ∷ settle_record sequence f rs

abbrev pub clear_slot : ℕ → Option Slot → Option Slot
clear_slot sequence none = none
clear_slot sequence (some closing) = some closing
clear_slot sequence (some (executing n i c)) =
    if n == sequence then none else some (executing n i c)

-- What `runTurn` publishes when `turn.ready` is answered: the terminal status of its record, which
-- `result` and `failure` are what the product's `Run` returned, and an empty slot if the slot is
-- still its own.
unfoldable pub publish : Worker → ℕ → Option TurnResult → Text → Bool → Worker
unfolding settle_record
publish w sequence result failure valid = record w {
  records = settle_record sequence (λ s. terminal_status s result failure valid) w.records;
  run = clear_slot sequence w.run;
}

unfoldable pub find_run : ReadRequest → List Record → Option Record
find_run request [] = none
find_run request (r ∷ rs) =
    if (is_empty request.run_id || text_eq request.run_id r.status.run_id)
      && text_eq request.session_id r.status.session_id
    then some r
    else find_run request rs

-- One look of `readRun`'s loop: an unknown run, an answer, or a wait for a change.
pub data Look : Type 0 where
  unknown : Look
  answered : RunStatus → Look
  blocked : Look

unfoldable pub look : Worker → ReadRequest → Bool → Look
unfolding find_run
look w request waits = elim (find_run request w.records) [
  | none ↦ unknown
  | some r ↦ if not waits || not (is_running r.status.state) then answered r.status else blocked
]

-- The admission of `readRun`; the waiter leaves by `leave`.
unfoldable pub enter : Worker → Worker × Code
enter w = if leb max_operations w.waiters then (w, busy) else elim w.run [
  | some closing ↦ (w, busy)
  | _ ↦ (record w { waiters = w.waiters + 1 }, no_error)
]

unfoldable pub leave : Worker → Worker
leave w = record w { waiters = w.waiters - 1 }

-- The cases of `ackRun` for an identifier of this worker.
unfoldable pub ack_known : Worker → RunRef → ℕ → List Record → Worker × Code
ack_known w ref sequence rs = if leb sequence w.acknowledged then (w, no_error) else elim rs [
  | [] ↦ (w, unknown_session)
  | r ∷ rest ↦
      if text_eq r.status.run_id ref.run_id && not (is_running r.status.state)
      then (record w { acknowledged = sequence; records = rest }, no_error)
      else (w, busy)
]

abbrev pub ack_parsed : Worker → RunRef → Text × ℕ × Bool → Worker × Code
ack_parsed w ref (prefix, sequence, valid) =
    if valid && text_eq prefix w.generation && text_eq ref.session_id w.session_id
    then ack_known w ref sequence w.records
    else (w, unknown_session)

unfoldable pub ack_run : Worker → RunRef → Worker × Code
ack_run w ref = ack_parsed w ref (run_sequence ref.run_id)

-- The slot when `turn.interrupt` arrives: the code answered and whether the product is called.
unfoldable pub interrupt : Worker → Worker × Code × Bool
interrupt w = elim w.run [
  | none ↦ (w, not_running, false)
  | some closing ↦ (w, no_error, false)
  | some (executing n i c) ↦
      if c
      then (w, not_running, false)
      else (record w { run = some (executing n true c) }, no_error, not i)
]

-- `slot.cancel()`, when the product's `Run` has returned.
unfoldable pub finish_native : Worker → Worker
finish_native w = elim w.run [
  | none ↦ w
  | some closing ↦ w
  | some (executing n i c) ↦ record w { run = some (executing n i true) }
]

-- `session.close`: the closing slot replaces the run's, or a second close hangs up.
unfoldable pub begin_close : Worker → Worker
begin_close w = elim w.run [
  | some closing ↦ record w { hung_up = true }
  | _ ↦ record w { run = some closing }
]

-- What becomes of a delivery that seeds no run.
pub data Delivery : Type 0 where
  -- answered with the error `not_running`: nothing was submitted
  refused : Delivery
  -- answered with a receipt that says "rejected" and "closing"
  rejected_closing : Delivery
  -- handed to the product
  submitted : Delivery

-- `message.deliver` with no run identifier, and the goroutine `deliver`.
unfoldable pub deliver : Worker → Delivery
deliver w = elim w.run [
  | none ↦ refused
  | some closing ↦ rejected_closing
  | some (executing n i c) ↦ if c then refused else submitted
]
