-- ===== src/CommsLog/Events.antt =====
-- commslog.go: the events that the log admits, and what makes one valid.
use sessionbus.Base.{
  Bool, List, Option, Text, [], all_of, codes, contains, false, if◌then◌else◌, is_empty, is_none,
  leb, length, ltb, none, not, some, text_eq, true, ℕ, ◌&&◌, ◌||◌, ◌∷◌,
}

-- `type Mode string`: the three constants, and any other text.
pub data Mode : Type 0 where
  off metadata content : Mode
  other_mode : Text → Mode

-- `type EventType string`. The log itself writes "gap".
pub data EventType : Type 0 where
  lifecycle request receipt gap_type : EventType
  other_type : Text → EventType

pub record Endpoint : Type 0 where
  pub session_id : Text
  pub host : Text
  pub target : Text
  pub targets : List Text
  pub product : Text
  pub name : Text
  pub groups : List Text

pub record DeliveryReceipt : Type 0 where
  pub delivery_id : Text
  pub disposition : Text
  pub reason : Text

pub record Event : Type 0 where
  pub type : EventType
  pub method : Text
  pub message_id : Text
  pub delivery_id : Text
  pub run_id : Text
  pub error_code : ℕ
  pub state : Text
  pub outcome : Text
  pub from : Option Endpoint
  pub to : Option Endpoint
  pub receipt : Option DeliveryReceipt
  pub body : Text

abbrev pub maximum_label_bytes : ℕ
maximum_label_bytes = 1024

abbrev pub maximum_filters : ℕ
maximum_filters = 4096

abbrev pub maximum_groups : ℕ
maximum_groups = 4096

abbrev pub message_send : Text
message_send = codes "message.send"

abbrev pub states : List Text
states =
    []
    ∷ codes "starting"
    ∷ codes "ready"
    ∷ codes "connected"
    ∷ codes "running"
    ∷ codes "idle"
    ∷ codes "settled"
    ∷ codes "closing"
    ∷ codes "closed"
    ∷ codes "disconnected"
    ∷ codes "superseded"
    ∷ []

abbrev pub outcomes : List Text
outcomes =
    []
    ∷ codes "accepted"
    ∷ codes "rejected"
    ∷ codes "completed"
    ∷ codes "failed"
    ∷ codes "canceled"
    ∷ codes "unavailable"
    ∷ codes "no_agent"
    ∷ codes "interrupted"
    ∷ codes "no_receipt"
    ∷ codes "not_submitted"
    ∷ []

unfoldable pub valid_method : Text → Bool
valid_method method = not (is_empty method) && leb (length method) maximum_label_bytes

unfoldable pub valid_state : Text → Bool
valid_state state = contains states state

unfoldable pub valid_outcome : Text → Bool
valid_outcome outcome = contains outcomes outcome

-- The first two arms of the source's switch on the disposition; the last is `default`.
unfoldable pub valid_receipt : Option DeliveryReceipt → Bool
valid_receipt none = false
valid_receipt (some r) =
    if contains (codes "written" ∷ codes "injected" ∷ codes "queued_for_next_turn" ∷ [])
      r.disposition
    then is_empty r.reason
    else if text_eq r.disposition (codes "rejected")
    then not (is_empty r.reason)
    else false

unfoldable pub valid_endpoint : Option Endpoint → Bool
valid_endpoint none = true
valid_endpoint (some e) =
    if ltb 256 (length e.targets) || ltb maximum_groups (length e.groups)
    then false
    else all_of (λ target. not (is_empty target)) e.targets

abbrev is_request : EventType → Bool
is_request request = true
is_request _ = false

-- The final `switch event.Type`.
abbrev valid_shape : EventType → Option DeliveryReceipt → Bool
valid_shape lifecycle r = is_none r
valid_shape request r = is_none r
valid_shape receipt r = valid_receipt r
valid_shape gap_type r = false
valid_shape (other_type t) r = false

unfoldable pub valid_event : Event → Bool
unfolding valid_method valid_state valid_outcome valid_endpoint
valid_event e =
    if not (valid_method e.method)
    then false
    else if not (valid_state e.state) || not (valid_outcome e.outcome)
    then false
    else if not (valid_endpoint e.from) || not (valid_endpoint e.to)
    then false
    else if not (is_empty e.body)
        && (not (is_request e.type) || not (text_eq e.method message_send))
    then false
    else valid_shape e.type e.receipt
