-- ===== src/Protocol.antt =====
-- The wire protocol's constants and values (bus/sdk/go/protocol/types.go).
use sessionbus.Base.{Bool, Option, Text, false, true, ℕ}
use sessionbus.Base.Int.{negsuc, pos, ℤ}

abbrev pub max_operations : ℕ
max_operations = 256

-- The error codes; `no_error` is the code 0, which is none of them.
pub data Code : Type 0 where
  no_error invalid_frame invalid_hello internal unknown_session not_connected busy not_running :
      Code
  already_connected unknown_product unsupported_open spawn_failed timeout not_committed : Code
  superseded name_taken unknown_host forward_lost unsupported_trace : Code

-- The numbers on the wire; `negsuc n` is -(n + 1).
unfoldable pub code_number : Code → ℤ
code_number no_error = sessionbus.Base.Int.pos 0
code_number invalid_frame = negsuc 32599
code_number invalid_hello = negsuc 32601
code_number internal = negsuc 32602
code_number unknown_session = negsuc 32000
code_number not_connected = negsuc 32001
code_number busy = negsuc 32002
code_number not_running = negsuc 32003
code_number already_connected = negsuc 32004
code_number unknown_product = negsuc 32006
code_number unsupported_open = negsuc 32007
code_number spawn_failed = negsuc 32008
code_number timeout = negsuc 32009
code_number not_committed = negsuc 32010
code_number superseded = negsuc 32011
code_number name_taken = negsuc 32012
code_number unknown_host = negsuc 32013
code_number forward_lost = negsuc 32014
code_number unsupported_trace = negsuc 32015

pub record RunRef : Type 0 where
  pub session_id : Text
  pub run_id : Text

-- `run_id` is empty where the request names no run.
pub record ReadRequest : Type 0 where
  pub session_id : Text
  pub run_id : Text

pub record TurnResult : Type 0 where
  pub outcome : Text
  pub result : Text
  pub truncated : Bool
  pub native_stop_reason : Text

-- The texts "running", "done" and "unavailable".
pub data RunState : Type 0 where
  running done unavailable : RunState

pub record RunStatus : Type 0 where
  pub session_id : Text
  pub run_id : Text
  pub state : RunState
  pub result : Option TurnResult
  pub reason : Text

abbrev pub is_ok : Code → Bool
is_ok no_error = true
is_ok _ = false
