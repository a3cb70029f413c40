-- ===== src/Rpc/Connection.antt =====
-- rpc.go: a connection, the calls that its users begin, and the frames that its reader receives. A
-- move is what one goroutine does under `stateMu` together with the sends to `done` channels that
-- it then owes: whoever takes a call out of the map completes it, and its channel has a buffer for that.
use sessionbus.Base.{
  Bool, List, Option, Text, [], false, if◌then◌else◌, leb, length, ltb, none, not, some, true, ℕ,
  ◌++◌, ◌+◌, ◌==◌, ◌||◌, ◌∷◌,
}
use sessionbus.Protocol.{max_operations}
use sessionbus.Rpc.Calls.{Call, Calls, delete_call, find_call, replace_call}
use sessionbus.Rpc.Methods.{allows}

abbrev pub max_request_id : ℕ
max_request_id = 9007199254740991

-- What a call is completed with.
pub data Result : Type 0 where
  success closed_error exhausted too_many encode_error write_error : Result
  rpc_error invalid_result observer_error read_error : Result

pub record Conn : Type 0 where
  pub client : Bool
  pub closed : Bool
  pub next : ℕ
  pub last : ℕ
  pub pending : Calls
  -- the call whose goroutine holds `writeMu`, by its identifier and its channel
  pub sending : Option (ℕ × ℕ)
  pub reading : Bool
  -- the channels made, and the results sent to them, oldest first
  pub made : ℕ
  pub completed : List (ℕ × Result)
  -- the channels of the calls whose `seen` ran, and the requests given to the handler
  pub observed : List ℕ
  pub handled : List ℕ

unfoldable pub new_conn : Bool → Conn
new_conn client = record {
  client = client;
  closed = false;
  next = 0;
  last = 0;
  pending = [];
  sending = none;
  reading = true;
  made = 0;
  completed = [];
  observed = [];
  handled = [];
}

unfoldable pub complete : Conn → ℕ → Result → Conn
complete c t r = record c { completed = c.completed ++ (t, r) ∷ [] }

unfoldable pub all_done : Result → Calls → List (ℕ × Result)
all_done r [] = []
all_done r ((k, c) ∷ cs) = (c.token, r) ∷ all_done r cs

unfoldable pub close : Conn → Result → Conn
unfolding all_done
close c cause = if c.closed then c else record c {
  closed = true;
  pending = [];
  completed = c.completed ++ all_done cause c.pending;
}

unfoldable pub drop : Conn → ℕ → ℕ → Result → Conn
unfolding find_call delete_call complete
drop c id t e = elim (find_call id c.pending) [
  | none ↦ c
  | some p ↦
      if p.token == t then complete (record c { pending = delete_call id c.pending }) t e else c
]

-- The section of `begin` under both mutexes; `t` is the new channel.
unfoldable pub register : Conn → ℕ → Text → Bool → Conn
unfolding complete
register c t method observes =
    if c.closed
    then complete c t closed_error
    else if c.next == max_request_id
    then complete c t exhausted
    else if leb max_operations (length c.pending)
    then complete c t too_many
    else record c {
      next = c.next + 1;
      sending = some (c.next + 1, t);
      pending =
          c.pending
          ++ (c.next + 1, record { token = t; method = method; observes = observes; drain = false })
            ∷ [];
    }

unfoldable pub begin : Conn → Text → Bool → Bool → Conn
unfolding register complete
begin c method observes encodes =
    let d = record c { made = c.made + 1 } in
    if encodes
    then (elim c.sending [ none ↦ register d c.made method observes | some p ↦ c ])
    else complete d c.made encode_error

-- What becomes of the bytes of a request.
pub data Write : Type 0 where
  not_encoded written failed : Write

-- `c.send(body)`.
unfoldable pub send : Conn → Write → Conn × Option Result
unfolding close
send c not_encoded = (c, some encode_error)
send c written = if c.closed then (c, some closed_error) else (c, none)
send c failed = if c.closed then (c, some closed_error) else (close c write_error, some write_error)

unfoldable pub dropped : Conn × Option Result → ℕ → ℕ → Conn
unfolding drop
dropped (c, none) id t = c
dropped (c, some e) id t = drop c id t e

-- The rest of `begin`, from the encoding of the request on.
unfoldable pub finish_begin : Conn → Write → Conn
unfolding send dropped
finish_begin c w = elim c.sending [
  | none ↦ c
  | some p ↦ dropped (send (record c { sending = none }) w) p.0 p.1
]

-- `Result` and `Error`, once they hold `writeMu`; while another call holds it they write nothing.
unfoldable pub respond : Conn → Write → Conn
unfolding send
respond c w = elim c.sending [ none ↦ (send c w).0 | some p ↦ c ]

unfoldable pub reject : Conn → Write → Conn
unfolding respond close
reject c w = close (respond c w) read_error

unfoldable pub abandon : Conn → ℕ → ℕ → Conn
unfolding find_call replace_call
abandon c id t = elim (find_call id c.pending) [
  | none ↦ c
  | some p ↦
      if p.token == t
      then record c {
        pending = replace_call id (record p { observes = false; drain = true }) c.pending;
      }
      else c
]

-- What a response holds: an error, a result that does not validate, or one that does, with what
-- `seen` returns if it is called.
pub data Response : Type 0 where
  error_response invalid_response : Response
  result_response : Bool → Response

unfoldable pub answered : Conn → Call → Response → Conn
unfolding complete close
answered c p error_response = complete c p.token rpc_error
answered c p invalid_response = complete (close c invalid_result) p.token invalid_result
answered c p (result_response seen_ok) =
    let d = record c { observed = c.observed ++ p.token ∷ [] } in
    if not p.observes
    then complete c p.token success
    else if seen_ok
    then complete d p.token success
    else complete (close d observer_error) p.token observer_error

unfoldable pub receive_response : Conn → ℕ → Response → Conn
unfolding find_call delete_call answered close
receive_response c id r = elim (find_call id c.pending) [
  | none ↦ close c read_error
  | some p ↦ answered (record c { pending = delete_call id c.pending }) p r
]

-- `valid` says whether `DecodeParams` accepts the parameters.
unfoldable pub receive_request : Conn → ℕ → Text → Bool → Write → Conn
unfolding reject allows
receive_request c id method valid w =
    let d = record c { last = id } in
    if ltb c.last id
    then (if not valid || not (allows method (not c.client))
        then reject d w
        else record d { handled = c.handled ++ id ∷ [] })
    else reject c w

pub data Move : Type 0 where
  -- `begin` of a method, with whether it has an observer and whether its parameters encode
  begins : Text → Bool → Bool → Move
  sends : Write → Move
  responds : Write → Move
  -- the caller's context ends
  abandons : ℕ → ℕ → Move
  closes : Move
  -- the reader gets an error, a frame that does not decode, a request, a response
  read_fails : Move
  bad_frame : Bool → Write → Move
  requests : ℕ → Text → Bool → Write → Move
  responses : ℕ → Response → Move

-- A frame is received only while the reader runs.
unfoldable pub read : Conn → Move → Conn
unfolding close reject receive_request receive_response
read c read_fails = record (close c read_error) { reading = false }
read c (bad_frame answerable w) = record (if answerable then reject c w else close c read_error) {
  reading = false;
}
read c (requests id method valid w) = receive_request c id method valid w
read c (responses id r) = receive_response c id r
read c _ = c

unfoldable pub step : Conn → Move → Conn
unfolding begin finish_begin respond abandon close read
step c (begins method observes encodes) = begin c method observes encodes
step c (sends w) = finish_begin c w
step c (responds w) = respond c w
step c (abandons id t) = abandon c id t
step c closes = close c closed_error
step c m = if c.reading then read c m else c

unfoldable pub history : Conn → List Move → Conn
unfolding step
history c [] = c
history c (m ∷ ms) = history (step c m) ms
