-- ===== src/Session/Responses.antt =====
-- session.go: the responses of a worker or peer, and `turn.ready` (policy.go). The decoding of a result
-- is done before: a response is an error, a result that its schema refuses, or one that holds a run's
-- reference or nothing that the session looks at.
use sessionbus.Base.{
  Bool, List, Option, Text, [], false, if◌then◌else◌, is_empty, is_none, ltb, none, not, some,
  text_eq, true, ℕ, ◌&&◌, ◌++◌, ◌+◌, ◌==◌, ◌||◌, ◌∷◌,
}
use sessionbus.Base.Int.{pos_part}
use sessionbus.Protocol.{Code, RunRef, busy, internal, not_connected, not_running}
use sessionbus.Session.Closing.{orderly_stop, write_deferred_close}
use sessionbus.Session.Issue.{issue, start_deferred_delivery}
use sessionbus.Session.Reservations.{
  has_run_capacity, record_acknowledgment, refuse_run, set_deadline,
}
use sessionbus.Session.State.{
  Request, Session, answer_routed, current, finish_run, is_ack, is_close, is_deliver, is_execute,
  queued, reading, reference, refusal, result, turn_wait,
}

pub data Response : Type 0 where
  error_response : Code → Response
  invalid_response : Response
  ref_response : RunRef → Response
  other_response : Response

abbrev pub Pending : Type 0
Pending = List (ℕ × Request)

unfoldable pub find_request : ℕ → Pending → Option Request
find_request id [] = none
find_request id ((n, r) ∷ rs) = if id == n then some r else find_request id rs

unfoldable pub delete_request : ℕ → Pending → Pending
delete_request id [] = []
delete_request id ((n, r) ∷ rs) = if id == n then rs else (n, r) ∷ delete_request id rs

unfoldable pub hang_up : Session → Session
hang_up s = record s { wire_closed = true }

unfoldable pub is_not_running : Code → Bool
is_not_running not_running = true
is_not_running _ = false

unfoldable pub is_internal : Code → Bool
is_internal internal = true
is_internal _ = false

unfoldable pub finish_close_response : Session → Response → Session
unfolding hang_up orderly_stop
finish_close_response s (error_response c) = hang_up s
finish_close_response s invalid_response = hang_up s
finish_close_response s (ref_response ref) = orderly_stop s
finish_close_response s other_response = orderly_stop s

-- A delivery that the worker refused because its run had ended, or that had none.
unfoldable pub retains : Session → Request → Code → Bool
unfolding is_not_running is_deliver
retains s r c =
    is_not_running c
    && is_deliver r.method
    && is_empty r.run_id
    && not s.entry.peer
    && is_none s.close_call

unfoldable pub defer_delivery : Session → Request → Session
unfolding answer_routed
defer_delivery s r =
    let t = answer_routed s r queued in
    record t { deferred = t.deferred ++ record r { scheduled = true } ∷ [] }

unfoldable pub acknowledged_run : Session → Request → Session
unfolding record_acknowledgment
acknowledged_run s r = elim r.params [ reference ref ↦ record_acknowledgment s ref | _ ↦ s ]

-- `reject`: a refused frame stops the session; `sent` is what `Finish` returns.
unfoldable pub reject_frame : Session → Bool → Session
reject_frame s sent = record s { stopping = true; wire_closed = s.wire_closed || not sent }

unfoldable pub notify_target : Session → Text
notify_target s =
    let policy = s.entry.policy in
    if policy.persistent then policy.notify_target else policy.owner_session_id

module _ (accepts : ℕ → Bool) (fresh : Text) where
  unfoldable pub retain : Session → Request → Session
  unfolding has_run_capacity answer_routed defer_delivery issue
  retain s r =
      if is_empty s.run_id
      then issue accepts fresh s r
      else if not (has_run_capacity s)
      then answer_routed s r (refusal busy)
      else defer_delivery s r

  unfoldable pub receive_error : Session → Request → Code → Session
  unfolding retains retain refuse_run answer_routed start_deferred_delivery is_execute is_internal
  receive_error s r c =
      if retains s r c
      then retain s r
      else start_deferred_delivery accepts fresh (
          answer_routed
            (if not (is_empty r.run_id) && (is_execute r.method || not (is_internal c))
              then refuse_run s r.run_id
              else s)
            r (refusal c))

  -- A result of `turn.execute`: it must name the run, and a blocking call goes on to wait for it.
  unfoldable pub executed : Session → Request → RunRef → Session
  unfolding hang_up answer_routed issue
  executed s r ref =
      if not (text_eq ref.run_id r.run_id) || not (text_eq ref.session_id s.entry.session_id)
      then answer_routed (hang_up s) r (refusal not_connected)
      else if r.collect
      then issue accepts fresh s (record r {
        method = turn_wait;
        params = reading (record { session_id = ref.session_id; run_id = ref.run_id });
        run_id = [];
      })
      else answer_routed s r result

  unfoldable pub receive_result : Session → Request → Response → Session
  unfolding answer_routed acknowledged_run is_ack is_execute executed
  receive_result s r (ref_response ref) =
      if is_execute r.method
      then executed s r ref
      else answer_routed (if is_ack r.method then acknowledged_run s r else s) r result
  receive_result s r _ =
      answer_routed (if is_ack r.method then acknowledged_run s r else s) r result

  unfoldable pub answered : Session → Request → Response → Session
  unfolding current answer_routed is_close finish_close_response receive_error hang_up
      receive_result
  answered s r f =
      if not (s.entry.number == r.destination) || not (current s r.destination)
      then answer_routed s r (refusal not_connected)
      else if is_close r.method
      then finish_close_response s f
      else elim f [
        | error_response c ↦ receive_error s r c
        | invalid_response ↦ answer_routed (hang_up s) r (refusal not_connected)
        | other ↦ receive_result s r other
      ]

  unfoldable pub received : Session → Request → Response → Session
  unfolding answered write_deferred_close is_execute
  received s r f =
      let t = answered s r f in
      if is_execute r.method && r.collect then write_deferred_close accepts t else t

  unfoldable pub receive_response : Session → ℕ → Response → Session
  unfolding find_request delete_request received hang_up
  receive_response s id f = elim (find_request id s.pending) [
    | none ↦ hang_up (record s { stopping = true })
    | some r ↦ received (record s { pending = delete_request id s.pending }) r f
  ]

  -- `turn.ready` for the run that the lane has: `ended` says that it is done, `now` is the clock,
  -- and `sent` says that the answer to the frame was written.
  unfoldable pub run_ended : Session → Bool → ℕ → Bool → Session
  unfolding finish_run set_deadline hang_up start_deferred_delivery
  run_ended s ended now sent =
      let t =
        finish_run
          (record s { run_id = []; run_from_trace = false; run_from_completion = false }) in
      let delay = pos_part s.entry.policy.auto_close_ms in
      let u =
        if ended && ltb 0 delay && is_none t.close_call
        then set_deadline t (some (now + delay))
        else t in
      start_deferred_delivery accepts fresh (if sent then u else hang_up u)

  unfoldable pub turn_ready : Session → RunRef → Bool → ℕ → Bool → Session
  unfolding reject_frame run_ended notify_target
  turn_ready s ref ended now sent =
      if s.entry.peer
        || not (text_eq ref.session_id s.entry.session_id)
        || is_empty s.run_id
        || not (text_eq ref.run_id s.run_id)
      then reject_frame s sent
      else let t = run_ended s ended now sent in
        if s.entry.policy.notify
          && not s.run_from_completion
          && is_none t.close_call
          && not (is_empty (notify_target t))
        then record t { notices = t.notices ++ notify_target t ∷ [] }
        else t
