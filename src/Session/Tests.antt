-- ===== src/Session/Tests.antt =====
-- A session on concrete requests and responses.
use sessionbus.Base.{Bool, List, [], arith, codes, false, refl, text_eq, true, ℕ, ◌∷◌, ◌≡◌}
use sessionbus.Base.Int.{pos}
use sessionbus.Daemon.Policy.{LanePolicy}
use sessionbus.Protocol.{RunRef, not_connected, not_running}
use sessionbus.Runs.RunId.{cut, format_digits, format_uint, parse_digits, parse_uint, run_name}
use sessionbus.Session.Capacity.{IsAccounted}
use sessionbus.Session.Closing.{
  begin_close, blocks_close, forgets, orderly_stop, record_stop, settle_deferred, write_close,
  write_deferred_close,
}
use sessionbus.Session.Draining.{IsStarted, start_deferred_delivery_runs}
use sessionbus.Session.Exhaustion.{IsSettled, start_deferred_delivery-IsSettled}
use sessionbus.Session.History.{
  Move, connection_closed, detach, displace, displaced, ends, event, exits, finish, finish_lane,
  finishes, history, is_closing_call, is_run, posted, posts, process_ended, readies, responds,
  route, routed, routes, settle_calls, settle_pending, step, supersede, supersedes, wire_ended,
}
use sessionbus.Session.Issue.{
  addressed, as_execute, deliver_run, execute_run, input_text, issue, issue_admitted, issue_checked,
  own_params, start_deferred, start_deferred_delivery, starts_run, write_request,
}
use sessionbus.Session.Lifetime.{IsAnswered, history-IsAnswered}
use sessionbus.Session.Moves.{confirmed, history-IsAccounted}
use sessionbus.Session.Once.{asked, asks, owned, owns, taken}
use sessionbus.Session.Promises.{acks_present}
use sessionbus.Session.Records.{confirms}
use sessionbus.Session.Reservations.{
  acknowledged_by, has_run_capacity, outstanding, record_acknowledgment, reserve_run, set_deadline,
  stop_auto_close,
}
use sessionbus.Session.Responses.{
  acknowledged_run, answered, defer_delivery, delete_request, error_response, executed,
  find_request, is_internal, is_not_running, notify_target, other_response, receive_error,
  receive_response, receive_result, received, ref_response, retain, retains, run_ended, turn_ready,
}
use sessionbus.Session.State.{
  Entry, Request, Session, admit, admitted, answer_routed, closing, current, finish_run, input,
  is_ack, is_close, is_deliver, is_execute, is_interrupt, message_deliver, new_session, opaque,
  queued, reference, refusal, result, session_close, turn_ack, turn_run, turn_start,
}

abbrev lane_policy : LanePolicy
lane_policy = record {
  owner_session_id = codes "owner";
  persistent = false;
  idle_message = [];
  trace = [];
  auto_close_ms = pos 1000;
  notify = true;
  notify_target = [];
}

abbrev lane_entry : Entry
lane_entry = record {
  number = 0;
  session_id = codes "lane";
  peer = false;
  claimed = false;
  running = false;
  attached = true;
  listed = true;
  policy = lane_policy;
}

abbrev written : ℕ → Bool
written n = true

abbrev first_run : RunRef
first_run = record { session_id = codes "lane"; run_id = codes "run/1" }

-- A run is started, a delivery comes while it is present, which the worker has already ended, the run
-- ends, and its record is acknowledged.
abbrev run_moves : List Move
run_moves =
    routes 1 0 turn_start (input (codes "hello")) false false
    ∷ responds 1 (ref_response first_run)
    ∷ routes 2 0 message_deliver opaque false false
    ∷ responds 2 (error_response not_running)
    ∷ readies first_run true 5 true
    ∷ routes 3 0 turn_ack (reference first_run) false false
    ∷ responds 4 other_response
    ∷ []

run_answers :
    let s = history written (codes "run") (new_session lane_entry) run_moves in
    (s.answers ≡ (1, result) ∷ (2, queued) ∷ (3, result) ∷ [])
    × (s.run_id ≡ codes "run/2")
    × (s.acknowledged ≡ 1)
    × (s.notices ≡ codes "owner" ∷ [])
unfolding history step event route routed receive_response received answered receive_error
    receive_result executed retains retain defer_delivery acknowledged_run record_acknowledgment
    acknowledged_by turn_ready run_ended notify_target start_deferred_delivery start_deferred issue
    issue_checked issue_admitted deliver_run execute_run reserve_run set_deadline stop_auto_close
    finish_run has_run_capacity outstanding starts_run as_execute admit admitted current
    write_request addressed own_params input_text answer_routed find_request delete_request
    new_session is_deliver is_execute is_interrupt is_close is_ack is_not_running is_internal cut
    parse_uint parse_digits run_name format_uint format_digits text_eq
run_answers = (refl, refl, refl, refl)

run_confirmed : confirmed written (codes "run") (new_session lane_entry) run_moves ≡ true
unfolding confirmed confirms acks_present history step event route routed receive_response received
    answered receive_error receive_result executed retains retain defer_delivery acknowledged_run
    record_acknowledgment acknowledged_by turn_ready run_ended notify_target start_deferred_delivery
    start_deferred issue issue_checked issue_admitted deliver_run execute_run reserve_run
    set_deadline stop_auto_close finish_run has_run_capacity outstanding starts_run as_execute admit
    admitted current write_request addressed own_params input_text answer_routed find_request
    delete_request new_session is_deliver is_execute is_interrupt is_close is_ack is_not_running
    is_internal cut parse_uint parse_digits run_name format_uint format_digits text_eq
run_confirmed = refl

history-IsAccounted_example :
    IsAccounted (history written (codes "run") (new_session lane_entry) run_moves)
history-IsAccounted_example =
    history-IsAccounted written (codes "run") lane_entry run_moves run_confirmed

abbrev waiting_delivery : Request
waiting_delivery = record {
  ticket = 2;
  scheduled = true;
  trace_copy = false;
  completion = false;
  run_id = [];
  collect = false;
  destination = 0;
  method = message_deliver;
  params = opaque;
}

-- The run has ended and a delivery waits.
abbrev free_session : Session
free_session = record (new_session lane_entry) {
  run_sequence = 1;
  deferred = waiting_delivery ∷ [];
}

free_session-IsAccounted : IsAccounted free_session
unfolding new_session is_deliver
free_session-IsAccounted = record {
  bound = omega arith;
  present = λ p. absurd (ground arith);
  numbered = omega arith;
  cursor = omega arith;
  waiting = ((refl, refl, refl), tt);
  calls = λ _. omega arith;
}

start_deferred_delivery_runs_example :
    IsStarted
      (codes "run")
      free_session
      waiting_delivery
      []
      (start_deferred_delivery written (codes "run") free_session)
unfolding new_session
start_deferred_delivery_runs_example =
    start_deferred_delivery_runs written (codes "run") free_session waiting_delivery []
      free_session-IsAccounted refl refl refl refl refl refl

start_deferred_delivery-IsSettled_example :
    IsSettled (start_deferred_delivery written (codes "run") free_session)
start_deferred_delivery-IsSettled_example =
    start_deferred_delivery-IsSettled written (codes "run") free_session

-- A run, a delivery that waits for it, and the end of the worker.
abbrev lost_moves : List Move
lost_moves =
    routes 1 0 turn_run (input (codes "hello")) false false
    ∷ responds 1 (ref_response first_run)
    ∷ routes 2 0 message_deliver opaque false false
    ∷ responds 3 (error_response not_running)
    ∷ routes 3 0 session_close (closing false) false false
    ∷ ends
    ∷ exits
    ∷ finishes true
    ∷ []

lost_answers :
    (history written (codes "run") (new_session lane_entry) lost_moves).answers
    ≡ (2, queued) ∷ (1, refusal not_connected) ∷ (3, result) ∷ []
unfolding begin_close settle_deferred write_deferred_close write_close blocks_close forgets
    wire_ended connection_closed detach settle_pending settle_calls is_run is_closing_call
    orderly_stop record_stop process_ended finish_lane history step event route routed
    receive_response received answered receive_error receive_result executed retains retain
    defer_delivery acknowledged_run record_acknowledgment acknowledged_by turn_ready run_ended
    notify_target start_deferred_delivery start_deferred issue issue_checked issue_admitted
    deliver_run execute_run reserve_run set_deadline stop_auto_close finish_run has_run_capacity
    outstanding starts_run as_execute admit admitted current write_request addressed own_params
    input_text answer_routed find_request delete_request new_session is_deliver is_execute
    is_interrupt is_close is_ack is_not_running is_internal cut parse_uint parse_digits run_name
    format_uint format_digits text_eq
lost_answers = refl

history-IsAnswered_example :
    IsAnswered 1
      (taken written (codes "run") 1 (new_session lane_entry) lost_moves)
      (history written (codes "run") (new_session lane_entry) lost_moves)
unfolding asked asks owned owns
history-IsAnswered_example =
    history-IsAnswered written (codes "run") lane_entry 1 lost_moves refl refl (omega arith) refl

-- A delivery is under way to a peer whose entry another session takes over.
abbrev peer_entry : Entry
peer_entry = record lane_entry { peer = true; session_id = codes "peer" }

abbrev displaced_moves : List Move
displaced_moves =
    routes 1 0 message_deliver opaque false false
    ∷ displaced
    ∷ responds 1 other_response
    ∷ supersedes
    ∷ ends
    ∷ finishes false
    ∷ []

displaced_answers :
    let s = history written (codes "run") (new_session peer_entry) displaced_moves in
    (s.answers ≡ (1, refusal not_connected) ∷ []) × (s.finished ≡ true)
unfolding finish posted posts displace supersede wire_ended connection_closed detach settle_pending
    settle_calls settle_deferred is_run is_closing_call history step event route routed
    receive_response received answered issue issue_checked issue_admitted stop_auto_close finish_run
    starts_run as_execute admit admitted current write_request addressed own_params answer_routed
    find_request delete_request new_session is_deliver is_execute is_interrupt is_close
displaced_answers = (refl, refl)
