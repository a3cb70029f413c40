-- ===== src/CommsLog/Tests.antt =====
-- Runs of the communication log on concrete inputs.
use sessionbus.Base.{
  List, Option, [], all_of, arith, codes, contains, false, inl, is_empty, length, none, refl, some,
  suc, text_eq, true, u64, ℕ, ◌+◌, ◌↔◌, ◌∷◌, ◌≡◌, ◌≢◌, ◌≤◌,
}
use sessionbus.Base.Int.{pos}
use sessionbus.CommsLog.Accepted.{IsAccepted, validate_options-exact}
use sessionbus.CommsLog.Bounds.{bytes_of, in_flight, run-fits}
use sessionbus.CommsLog.Conservation.{events_of, run-accounts, under_way}
use sessionbus.CommsLog.Events.{Event, content, message_send, metadata, request, valid_event}
use sessionbus.CommsLog.Gaps.{EncodesGaps}
use sessionbus.CommsLog.Options.{Options, string_set, validate_options}
use sessionbus.CommsLog.Order.{run-Tiles, run_complete}
use sessionbus.CommsLog.Privacy.{emit_ignores_body}
use sessionbus.CommsLog.Queue.{
  admit, close, disk_record, emit, marshal_line, matches, overflow, redact, take,
}
use sessionbus.CommsLog.Shutdown.{close_drains, left, rounds}
use sessionbus.CommsLog.State.{Bytes, DiskRecord, new_logger}
use sessionbus.CommsLog.Tiling.{Tiles}
use sessionbus.CommsLog.Wakeups.{run-no_lost_wakeup}
use sessionbus.CommsLog.Writer.{
  Move, closes, emits, init, run, running, settle, step, stopped, taken, takes, waiting, wakes,
  writer, writes,
}

-- Encodes a record as its sequence number, the length of its body and, of a gap, its first number.
abbrev toy_marshal : DiskRecord → Option Bytes
toy_marshal d = elim d.gap [
  | none ↦ some (d.sequence ∷ length d.body ∷ [])
  | some g ↦ some (g.first_sequence ∷ g.last_sequence ∷ [])
]

toy_gaps : EncodesGaps toy_marshal
toy_gaps d g e f = ground arith

abbrev sample_options : Options
sample_options = record {
  mode = metadata;
  path = codes "/log";
  host = codes "h";
  incarnation = codes "i";
  max_file_bytes = pos 4096;
  max_files = pos 2;
  queue_bytes = pos 4096;
  sessions = [];
  groups = [];
  on_error = true;
}

abbrev sample_event : Event
sample_event = record {
  type = request;
  method = message_send;
  message_id = codes "m";
  delivery_id = [];
  run_id = [];
  error_code = 0;
  state = [];
  outcome = [];
  from = none;
  to = none;
  receipt = none;
  body = codes "secret";
}

-- Two events, one of them written, and a close.
abbrev sample_moves : List Move
sample_moves = emits sample_event 5 ∷ takes none ∷ writes ∷ emits sample_event 6 ∷ closes ∷ []

sample_sequence :
    (run toy_marshal (init sample_options) sample_moves).logger.stats.last_sequence ≡ 2
unfolding run step emit matches valid_event redact admit marshal_line disk_record contains all_of
    writer init take close text_eq string_set
sample_sequence = refl

sample_running : (run toy_marshal (init sample_options) sample_moves).phase ≡ running
unfolding run step emit matches valid_event redact admit marshal_line disk_record contains all_of
    writer init take close text_eq string_set
sample_running = refl

sample_closing : (run toy_marshal (init sample_options) sample_moves).logger.closing ≡ true
unfolding run step emit matches valid_event redact admit marshal_line disk_record contains all_of
    writer init take close text_eq string_set
sample_closing = refl

sample_live : (run toy_marshal (init sample_options) sample_moves).logger.err ≡ none
unfolding run step emit matches valid_event redact admit marshal_line disk_record contains all_of
    writer init take close text_eq string_set
sample_live = refl

-- The rest of the queue is written, and the writer returns.
abbrev stop_moves : List Move
stop_moves =
    emits sample_event 5
    ∷ takes none
    ∷ writes
    ∷ emits sample_event 6
    ∷ closes
    ∷ takes none
    ∷ writes
    ∷ takes none
    ∷ []

-- A queue of four bytes, so that every second event overflows it.
abbrev tight_options : Options
tight_options = record sample_options { queue_bytes = pos 4 }

abbrev gap_moves : List Move
gap_moves =
    emits sample_event 5
    ∷ emits sample_event 6
    ∷ emits sample_event 7
    ∷ takes none
    ∷ writes
    ∷ closes
    ∷ takes none
    ∷ writes
    ∷ []

stop_phase : (run toy_marshal (init sample_options) stop_moves).phase ≡ stopped
unfolding run step emit matches valid_event redact admit marshal_line disk_record contains all_of
    writer init take close text_eq string_set taken settle
stop_phase = refl

stop_err : (run toy_marshal (init sample_options) stop_moves).logger.err ≡ none
unfolding run step emit matches valid_event redact admit marshal_line disk_record contains all_of
    writer init take close text_eq string_set taken settle
stop_err = refl

gap_disk :
    (run toy_marshal (init tight_options) gap_moves).disk
    ≡ (1 ∷ 0 ∷ 10 ∷ []) ∷ (2 ∷ 3 ∷ 10 ∷ []) ∷ []
unfolding run step emit matches valid_event redact admit marshal_line disk_record contains all_of
    writer init take close text_eq string_set taken settle overflow
gap_disk = refl

idle_phase :
    (run toy_marshal (init sample_options) (takes none ∷ emits sample_event 5 ∷ [])).phase ≡ waiting
unfolding run step emit matches valid_event redact admit marshal_line disk_record contains all_of
    writer init take close text_eq string_set taken settle
idle_phase = refl

idle_queue :
    is_empty
      (run toy_marshal (init sample_options) (takes none ∷ emits sample_event 5 ∷ [])).logger.queue
    ≡ false
unfolding run step emit matches valid_event redact admit marshal_line disk_record contains all_of
    writer init take close text_eq string_set taken settle
idle_queue = refl

sample_mode : (new_logger sample_options).mode ≢ content
unfolding new_logger
sample_mode = λ e. cc

run_complete_example :
    Tiles toy_marshal 0
      (run toy_marshal (init sample_options) stop_moves).disk
      (run toy_marshal (init sample_options) stop_moves).logger.stats.last_sequence
run_complete_example =
    run_complete toy_marshal toy_gaps sample_options stop_moves stop_phase stop_err

run-Tiles_example :
    (upto : ℕ) × Tiles toy_marshal 0 (run toy_marshal (init tight_options) gap_moves).disk upto
run-Tiles_example = run-Tiles toy_marshal toy_gaps tight_options gap_moves

close_drains_example :
    let s = run toy_marshal (init sample_options) sample_moves in
    let t = run toy_marshal s (rounds (suc (left s.logger))) in
    (t.phase ≡ stopped)
    × (t.logger.err ≡ none)
    × Tiles toy_marshal 0 t.disk t.logger.stats.last_sequence
close_drains_example =
    close_drains toy_marshal toy_gaps sample_options sample_moves sample_running sample_closing
      sample_live

run-accounts_example :
    let s = run toy_marshal (init tight_options) gap_moves in
    s.logger.stats.last_sequence
    ≡ u64 (
        s.logger.stats.written
        + s.logger.stats.lost_overflow
        + s.logger.stats.lost_write
        + under_way s.phase
        + events_of s.logger.queue)
run-accounts_example = run-accounts toy_marshal tight_options gap_moves

run-no_lost_wakeup_example :
    let s = run toy_marshal (init sample_options) (takes none ∷ emits sample_event 5 ∷ []) in
    (s.logger.notify ≡ true) × ((step toy_marshal s wakes).phase ≡ running)
run-no_lost_wakeup_example =
    run-no_lost_wakeup toy_marshal toy_gaps sample_options (takes none ∷ emits sample_event 5 ∷ [])
      idle_phase (inl idle_queue)

run-fits_example :
    let s = run toy_marshal (init tight_options) gap_moves in
    (bytes_of s.logger.queue ≤ s.logger.max_queue_bytes)
    × (s.logger.closing ≡ false
        → s.logger.queue_bytes ≡ pos (bytes_of s.logger.queue + in_flight s.phase))
run-fits_example = run-fits toy_marshal tight_options gap_moves

emit_ignores_body_example :
    emit toy_marshal (new_logger sample_options) (record sample_event { body = codes "other" }) 5
    ≡ emit toy_marshal (new_logger sample_options) sample_event 5
emit_ignores_body_example =
    emit_ignores_body toy_marshal (new_logger sample_options) sample_event (codes "other") 5
      sample_mode

validate_options-exact_example :
    (validate_options sample_options ≡ none) ↔ IsAccepted sample_options
validate_options-exact_example = validate_options-exact sample_options
