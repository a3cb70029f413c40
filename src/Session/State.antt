-- ===== src/Session/State.antt =====
-- session.go: the state of a session's loop, and the part of its directory entry (directory.go) that
-- its operations use. The trace's bookkeeping and what is logged are left out.
use sessionbus.Base.{
  Bool, List, Option, Text, [], false, if◌then◌else◌, none, not, true, ℕ, ◌&&◌, ◌++◌, ◌==◌, ◌∷◌,
}
use sessionbus.Daemon.Policy.{LanePolicy}
use sessionbus.Protocol.{Code, ReadRequest, RunRef, busy, no_error, not_connected, not_running}

pub data Method : Type 0 where
  turn_run turn_start turn_execute turn_status turn_wait turn_ack turn_interrupt : Method
  message_deliver session_close other_call : Method

-- The parameters, as far as the session looks at them.
pub data Params : Type 0 where
  input : Text → Params
  execution : Text → Text → Text → Params
  reference : RunRef → Params
  reading : ReadRequest → Params
  delivery : Text → Params
  -- `Forget`
  closing : Bool → Params
  opaque : Params

-- `routedRequest`. `ticket` stands for the channel `reply`, and `destination` for the entry.
pub record Request : Type 0 where
  pub ticket : ℕ
  pub scheduled : Bool
  pub trace_copy : Bool
  pub completion : Bool
  pub run_id : Text
  pub collect : Bool
  pub destination : ℕ
  pub method : Method
  pub params : Params

pub data Answer : Type 0 where
  refusal : Code → Answer
  -- the receipt "queued_for_next_turn"
  queued : Answer
  result : Answer

-- The fields of `entry`; `attached` says that its attachment is this session, `listed` that the
-- directory's map still leads to it.
pub record Entry : Type 0 where
  pub number : ℕ
  pub session_id : Text
  pub peer : Bool
  pub claimed : Bool
  pub running : Bool
  pub attached : Bool
  pub listed : Bool
  pub policy : LanePolicy

pub record Session : Type 0 where
  pub entry : Entry
  pub committed : Bool
  pub run_id : Text
  pub run_generation : Text
  pub run_sequence : ℕ
  pub acknowledged : ℕ
  pub run_from_trace : Bool
  pub run_from_completion : Bool
  -- a time; `none` is the zero time
  pub deadline : Option ℕ
  pub previous_deadline : Option ℕ
  -- the timer `autoClose` runs
  pub auto_close : Bool
  pub next_out : ℕ
  pub pending : List (ℕ × Request)
  pub deferred : List Request
  pub stopping : Bool
  pub closed : Bool
  pub close_call : Option Request
  pub close_timer : Bool
  pub forget : Bool
  pub process_exited : Bool
  -- SIGKILL was chosen, or SIGTERM
  pub stop_signal : Option Bool
  pub wire_closed : Bool
  -- the loop has returned
  pub finished : Bool
  -- the answers sent to `reply` channels, and the requests whose outcome is logged instead
  pub answers : List (ℕ × Answer)
  pub logged : List Request
  -- the targets that are told of the end of a run
  pub notices : List Text

-- The session of an entry to which it has just been attached: a peer, or a lane that has opened. A
-- session has a launch exactly if its entry is no peer (`startLane`, `peerHello`).
unfoldable pub new_session : Entry → Session
new_session e = record {
  entry = e;
  committed = not e.peer;
  run_id = [];
  run_generation = [];
  run_sequence = 0;
  acknowledged = 0;
  run_from_trace = false;
  run_from_completion = false;
  deadline = none;
  previous_deadline = none;
  auto_close = false;
  next_out = 0;
  pending = [];
  deferred = [];
  stopping = false;
  closed = false;
  close_call = none;
  close_timer = false;
  forget = false;
  process_exited = false;
  stop_signal = none;
  wire_closed = false;
  finished = false;
  answers = [];
  logged = [];
  notices = [];
}

-- `answerRouted`: a scheduled request was answered when it was deferred.
unfoldable pub answer_routed : Session → Request → Answer → Session
answer_routed s r a =
    if r.scheduled
    then record s { logged = s.logged ++ r ∷ [] }
    else record s { answers = s.answers ++ (r.ticket, a) ∷ [] }

-- `directory.current`, `finishRun`, `admit` and `admitted`.
unfoldable pub current : Session → ℕ → Bool
current s destination = s.entry.listed && s.entry.number == destination && s.entry.attached

unfoldable pub finish_run : Session → Session
finish_run s =
    if s.entry.attached then record s { entry = record (s.entry) { running = false } } else s

unfoldable pub is_deliver : Method → Bool
is_deliver message_deliver = true
is_deliver _ = false

unfoldable pub is_execute : Method → Bool
is_execute turn_execute = true
is_execute _ = false

unfoldable pub is_interrupt : Method → Bool
is_interrupt turn_interrupt = true
is_interrupt _ = false

unfoldable pub is_close : Method → Bool
is_close session_close = true
is_close _ = false

unfoldable pub is_ack : Method → Bool
is_ack turn_ack = true
is_ack _ = false

unfoldable pub admit : Entry → Method → Code
unfolding is_deliver is_execute is_interrupt
admit e m =
    if not e.attached
    then not_connected
    else if e.claimed && not (is_deliver m)
    then busy
    else if is_execute m && e.running
    then busy
    else if is_interrupt m && not e.running
    then not_running
    else no_error

unfoldable pub admitted : Entry → Method → Entry
admitted e turn_execute = record e { running = true }
admitted e session_close = record e { claimed = true }
admitted e _ = e
