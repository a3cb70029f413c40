-- ===== src/Hub/Link.antt =====
-- hub.go: `hostLink.run`, one event of its loop at a time, and `frame`. The registry's and the peer's
-- answers, and what is written to the wire, are inputs: `sent` is what `wire.Send` returns. A channel
-- `reply` is a number.
use sessionbus.Base.{
  Bool, List, Option, [], false, if◌then◌else◌, leb, length, ltb, none, not, some, true, ℕ, ◌&&◌,
  ◌++◌, ◌+◌, ◌==◌, ◌||◌, ◌∷◌,
}
use sessionbus.Hub.Registry.{plain}

abbrev pub max_pending_forwarded_per_host : ℕ
max_pending_forwarded_per_host = 256

pub record PendingCall : Type 0 where
  pub ticket : ℕ
  pub trace : Bool

abbrev pub PendingCalls : Type 0
PendingCalls = List (ℕ × PendingCall)

-- What a call is answered with.
pub data Reply : Type 0 where
  forward_lost trace_unsupported frame_too_big remote_error remote_result : Reply
  -- a result without the recipients that the call asked for
  plain_result : Reply

-- The events that are posted to the registry.
pub data RegistryEvent : Type 0 where
  registry_roster registry_hosts registry_owner_end registry_forward : ℕ → RegistryEvent
  registry_closed : RegistryEvent

pub record Link : Type 0 where
  -- SupportsWake, SupportsTrace and SupportsRoster of the connection
  pub wake : Bool
  pub traces : Bool
  pub rosters : Bool
  pub failed : Bool
  pub next_id : ℕ
  pub last_in : ℕ
  pub pending : PendingCalls
  pub wire_closed : Bool
  -- the loop has returned
  pub ended : Bool
  pub replies : List (ℕ × Reply)
  pub posted : List RegistryEvent

unfoldable pub new_link : Bool → Bool → Bool → Bool → Link
new_link wake traces rosters accepted = record {
  wake = wake;
  traces = traces;
  rosters = rosters;
  failed = not accepted;
  next_id = 0;
  last_in = 0;
  pending = [];
  wire_closed = false;
  ended = false;
  replies = [];
  posted = [];
}

unfoldable pub answer : Link → ℕ → Reply → Link
answer l t r = record l { replies = l.replies ++ (t, r) ∷ [] }

unfoldable pub fail : Link → Link
fail l = record l { failed = true; wire_closed = true }

unfoldable pub is_full : Link → Bool
is_full l = leb max_pending_forwarded_per_host (length l.pending)

unfoldable pub enter : Link → ℕ → Bool → Link
enter l t trace = record l {
  next_id = l.next_id + 1;
  pending = l.pending ++ (l.next_id + 1, record { ticket = t; trace = trace }) ∷ [];
}

-- `outgoingRoster`, `lifetimeCall` and `outgoingForward`; `encoded` is whether the body was built.
unfoldable pub call_roster : Link → ℕ → Bool → Bool → Link
unfolding answer is_full enter
call_roster l t encoded sent =
    if l.failed || is_full l
    then answer l t forward_lost
    else if encoded && sent
    then enter l t false
    else answer (record l { next_id = l.next_id + 1 }) t forward_lost

unfoldable pub call_lifetime : Link → ℕ → Bool → Bool → Link
unfolding answer is_full enter fail
call_lifetime l t encoded sent =
    if l.failed || is_full l
    then fail (answer l t forward_lost)
    else if encoded && sent
    then enter l t false
    else fail (answer (record l { next_id = l.next_id + 1 }) t forward_lost)

-- Whether there are bytes, and whether they ask for the trace: `encodes` says for either value of that
-- whether the request has an encoding.
unfoldable pub forward_request_bytes : (Bool → Bool) → Bool → Bool × Bool
forward_request_bytes encodes trace =
    if encodes trace || not trace then (encodes trace, trace) else (encodes false, false)

-- The part of `outgoingForward` after the tests of what the daemon supports; `targeted` is whether the
-- request names a host.
unfoldable pub send_forward : Link → ℕ → Bool → (Bool → Bool) → Bool → Bool → Link
unfolding answer is_full enter fail forward_request_bytes
send_forward l t trace encodes targeted sent =
    let bytes = forward_request_bytes encodes trace in
    if l.failed || is_full l
    then (if is_full l then fail (answer l t forward_lost) else answer l t forward_lost)
    else if not targeted || not bytes.0
    then answer (record l { next_id = l.next_id + 1 }) t frame_too_big
    else if sent
    then enter l t bytes.1
    else answer (record l { next_id = l.next_id + 1; failed = true }) t forward_lost

unfoldable pub call_forward : Link → ℕ → Bool → Bool → Bool → (Bool → Bool) → Bool → Bool → Link
unfolding answer send_forward
call_forward l t completion requires trace encodes targeted sent =
    if completion && not l.wake
    then answer l t forward_lost
    else if requires && not l.traces
    then answer l t trace_unsupported
    else send_forward l t (trace && l.traces) encodes targeted sent

unfoldable pub send_reply : Link → Bool → Bool → Link
unfolding fail
send_reply l encoded sent = if not l.failed && (not encoded || not sent) then fail l else l

unfoldable pub find_pending : ℕ → PendingCalls → Option PendingCall
find_pending id [] = none
find_pending id ((n, c) ∷ cs) = if id == n then some c else find_pending id cs

unfoldable pub delete_pending : ℕ → PendingCalls → PendingCalls
delete_pending id [] = []
delete_pending id ((n, c) ∷ cs) = if id == n then cs else (n, c) ∷ delete_pending id cs

-- A response: an error, or a result, which may decode with the recipients of its trace, and as the
-- plain result of its method.
pub data Response : Type 0 where
  error_response : Response
  result_response : Bool → Bool → Response

unfoldable pub decode_pending_reply : PendingCall → Response → Option Reply
decode_pending_reply c error_response = some remote_error
decode_pending_reply c (result_response traced plain) =
    if c.trace
    then (if traced then some remote_result else if plain then some plain_result else none)
    else if plain
    then some remote_result
    else none

-- The calls that a daemon makes: `ending` and `forwarding` say whether the parameters are valid, the
-- other two whether they are empty.
pub data Request : Type 0 where
  roster_request hosts_request owner_end_request forward_request : Bool → Request
  other_request : Request

unfoldable pub post : Link → RegistryEvent → Link
post l e = record l { posted = l.posted ++ e ∷ [] }

unfoldable pub receive_request : Link → ℕ → Request → Link
unfolding post fail
receive_request l id (roster_request valid) =
    if not l.rosters || not valid then fail l else post l (registry_roster id)
receive_request l id (hosts_request valid) = if valid then post l (registry_hosts id) else fail l
receive_request l id (owner_end_request valid) =
    if valid then post l (registry_owner_end id) else fail l
receive_request l id (forward_request valid) =
    if valid then post l (registry_forward id) else fail l
receive_request l id other_request = fail l

unfoldable pub receive_response : Link → ℕ → Response → Link
unfolding find_pending delete_pending decode_pending_reply answer fail
receive_response l id f = elim (find_pending id l.pending) [
  | none ↦ fail l
  | some c ↦ (elim (decode_pending_reply c f) [
    | none ↦ fail l
    | some r ↦ answer (record l { pending = delete_pending id l.pending }) c.ticket r
  ])
]

pub data Frame : Type 0 where
  bad_frame : Frame
  response : ℕ → Response → Frame
  request : ℕ → Request → Frame

unfoldable pub receive_frame : Link → Frame → Link
unfolding fail receive_response receive_request
receive_frame l bad_frame = fail l
receive_frame l (response id f) = receive_response l id f
receive_frame l (request id r) =
    if ltb l.last_in id then receive_request (record l { last_in = id }) id r else fail l

-- `settlePending` and `settleQueued`.
unfoldable pub settle_pending : PendingCalls → Link → Link
unfolding answer
settle_pending [] l = record l { pending = [] }
settle_pending ((n, c) ∷ cs) l = settle_pending cs (answer l c.ticket forward_lost)

unfoldable pub settle_queued : List ℕ → Link → Link
unfolding answer
settle_queued [] l = l
settle_queued (t ∷ ts) l = settle_queued ts (answer l t forward_lost)

-- The connection has closed; the queue holds the calls still in the inbox. At its end the loop closes
-- the wire.
unfoldable pub end_link : Link → List ℕ → Link
unfolding post settle_pending settle_queued
end_link l queue =
    let t = post l registry_closed in
    record (settle_queued queue (settle_pending t.pending t)) { wire_closed = true; ended = true }

pub data Move : Type 0 where
  stops : Move
  asks_roster lifetimes : ℕ → Bool → Bool → Move
  -- the channel, `Completion`, what the request requires and asks of traces, and how it is written
  forwards : ℕ → (completion requires trace : Bool) → (Bool → Bool) → (targeted sent : Bool) → Move
  answers : Bool → Bool → Move
  frames : Frame → Move
  closes : List ℕ → Move

unfoldable pub event : Link → Move → Link
unfolding fail call_roster call_lifetime call_forward send_reply receive_frame end_link
event l stops = fail l
event l (asks_roster t encoded sent) = call_roster l t encoded sent
event l (lifetimes t encoded sent) = call_lifetime l t encoded sent
event l (forwards t completion requires trace encodes targeted sent) =
    call_forward l t completion requires trace encodes targeted sent
event l (answers encoded sent) = send_reply l encoded sent
event l (frames f) = if l.failed then l else receive_frame l f
event l (closes queue) = end_link l queue

unfoldable pub step : Link → Move → Link
unfolding event
step l m = if l.ended then l else event l m

unfoldable pub history : Link → List Move → Link
unfolding step
history l [] = l
history l (m ∷ ms) = history (step l m) ms
