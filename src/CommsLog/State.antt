-- ===== src/CommsLog/State.antt =====
-- commslog.go: the logger's state, what a line of the log holds, and a new logger.
use sessionbus.Base.{Bool, List, Option, Text, [], false, none, ℕ}
use sessionbus.Base.Int.{pos, pos_part, ℤ}
use sessionbus.CommsLog.Events.{DeliveryReceipt, Endpoint, EventType, Mode}
use sessionbus.CommsLog.Options.{Options, string_set}

abbrev pub Bytes : Type 0
Bytes = List ℕ

-- An error value: the messages that `errors.Join` holds.
abbrev pub Err : Type 0
Err = List Text

pub record Stats : Type 0 where
  pub last_sequence : ℕ
  pub written : ℕ
  pub gap_records : ℕ
  pub lost_invalid : ℕ
  pub lost_overflow : ℕ
  pub lost_write : ℕ
  pub write_errors : ℕ

pub record GapRecord : Type 0 where
  pub first_sequence : ℕ
  pub last_sequence : ℕ
  pub count : ℕ
  pub cause : Text

pub record DiskRecord : Type 0 where
  pub schema : Text
  pub host : Text
  pub incarnation : Text
  pub sequence : ℕ
  pub utc : ℕ
  pub type : EventType
  pub method : Text
  pub message_id : Text
  pub delivery_id : Text
  pub run_id : Text
  pub error_code : ℕ
  pub state : Text
  pub outcome : Text
  pub from : Option Endpoint
  pub to : Option Endpoint
  pub receipt : Option DeliveryReceipt
  pub body : Text
  pub gap : Option GapRecord

pub record PendingGap : Type 0 where
  pub first : ℕ
  pub last : ℕ
  pub count : ℕ
  pub at : ℕ

-- `raw` is `none` where the source's slice is nil.
pub record QueuedRecord : Type 0 where
  pub raw : Option Bytes
  pub events : ℕ
  pub is_gap : Bool

pub record Logger : Type 0 where
  pub mode : Mode
  pub host : Text
  pub incarnation : Text
  pub max_file_bytes : ℕ
  pub max_queue_bytes : ℕ
  pub sessions : List Text
  pub groups : List Text
  pub on_error : Bool
  -- the buffered channel `notify`, of capacity one
  pub notify : Bool
  pub queue : List QueuedRecord
  pub queue_bytes : ℤ
  pub gap : Option PendingGap
  pub closing : Bool
  pub err : Option Err
  pub stats : Stats

-- The bounds are positive once the options are valid.
unfoldable pub new_logger : Options → Logger
new_logger o = record {
  mode = o.mode;
  host = o.host;
  incarnation = o.incarnation;
  max_file_bytes = pos_part o.max_file_bytes;
  max_queue_bytes = pos_part o.queue_bytes;
  sessions = string_set o.sessions;
  groups = string_set o.groups;
  on_error = o.on_error;
  notify = false;
  queue = [];
  queue_bytes = pos 0;
  gap = none;
  closing = false;
  err = none;
  stats = record {
    last_sequence = 0;
    written = 0;
    gap_records = 0;
    lost_invalid = 0;
    lost_overflow = 0;
    lost_write = 0;
    write_errors = 0;
  };
}
