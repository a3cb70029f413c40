-- ===== src/Session/Issue.antt =====
-- session.go: `issue`. Whether a request can be encoded and written (`RequestBytes` and `wire.Send`) is
-- `accepts`, by the request's identifier, which is used once; `fresh` is the random name of the
-- session's runs.
use sessionbus.Base.{
  Bool, Text, [], false, if◌then◌else◌, is_empty, is_some, leb, length, not, suc, true, zero, ℕ,
  ◌&&◌, ◌++◌, ◌+◌, ◌||◌, ◌∷◌,
}
use sessionbus.Protocol.{busy, is_ok, max_operations, not_connected}
use sessionbus.Session.Closing.{begin_close}
use sessionbus.Session.Reservations.{has_run_capacity, refuse_run, reserve_run}
use sessionbus.Session.State.{
  Params, Request, Session, admit, admitted, answer_routed, delivery, execution, input, is_close,
  is_deliver, is_execute, reading, reference, refusal, turn_execute, turn_run, turn_start,
}

-- `turn.start` and `turn.run` are executed by `turn.execute`.
unfoldable pub as_execute : Request → Request
as_execute r = elim r.method [
  | turn_run ↦ record r { method = turn_execute; collect = true }
  | turn_start ↦ record r { method = turn_execute; collect = false }
  | _ ↦ r
]

-- A delivery that has to start a run: the lane is not running one.
unfoldable pub starts_run : Session → Request → Bool
unfolding is_deliver
starts_run s r = is_deliver r.method && not s.entry.peer && is_empty s.run_id

unfoldable pub input_text : Params → Text
input_text (input t) = t
input_text _ = []

-- The worker sees its own session identifier.
unfoldable pub own_params : Text → Params → Params
own_params id (reading r) = reading (record r { session_id = id })
own_params id (reference r) = reference (record r { session_id = id })
own_params id p = p

unfoldable pub addressed : Session → Request → Request
unfolding own_params
addressed s r = record r { params = own_params s.entry.session_id r.params }

module _ (accepts : ℕ → Bool) where
  -- The part of `issue` from `s.nextOut++` on.
  unfoldable pub write_request : Session → Request → Session
  unfolding admitted refuse_run answer_routed
  write_request s r =
      let n = s.next_out + 1 in
      let t = record s { next_out = n } in
      if accepts n
      then record t {
        entry = if is_empty r.run_id then t.entry else admitted t.entry turn_execute;
        pending = t.pending ++ (n, r) ∷ [];
      }
      else answer_routed (if is_empty r.run_id then t else refuse_run t r.run_id) r
          (refusal not_connected)

  module _ (fresh : Text) where
    -- A run for the request, with the parameters that name it.
    unfoldable pub execute_run : Session → Request → Session
    unfolding reserve_run input_text write_request
    execute_run s r =
        let t = reserve_run fresh s in
        write_request t (record r {
          run_id = t.run_id;
          params = execution t.entry.session_id t.run_id (input_text r.params);
        })

    unfoldable pub deliver_run : Session → Request → Session
    unfolding reserve_run write_request
    deliver_run s r =
        let t = reserve_run fresh s in
        write_request
          (record t { run_from_trace = r.trace_copy; run_from_completion = r.completion })
          (record r { run_id = t.run_id; params = delivery t.run_id })

    -- The part of `issue` after the directory's admission, of any request but a close.
    unfoldable pub issue_admitted : Session → Request → Session
    unfolding starts_run has_run_capacity answer_routed execute_run deliver_run addressed
        write_request is_execute
    issue_admitted s r =
        if (is_execute r.method || starts_run s r) && not (has_run_capacity s)
        then answer_routed s r (refusal busy)
        else if is_execute r.method
        then execute_run s r
        else if starts_run s r
        then (if is_some s.close_call then answer_routed s r (refusal busy) else deliver_run s r)
        else write_request s (addressed s r)

    unfoldable pub issue_checked : Session → Request → Session
    unfolding admit issue_admitted begin_close is_close answer_routed
    issue_checked s r =
        let code = admit s.entry r.method in
        if not (is_ok code)
        then answer_routed s r (refusal code)
        else if is_close r.method
        then begin_close accepts s r
        else issue_admitted s r

    unfoldable pub issue : Session → Request → Session
    unfolding answer_routed as_execute issue_checked
    issue s r =
        if is_some s.close_call && not r.collect
        then answer_routed s r (refusal busy)
        else if leb max_operations (length s.pending + length s.deferred)
        then answer_routed s r (refusal busy)
        else issue_checked s (as_execute r)

    -- `startDeferredDelivery`, for at most `n` deliveries.
    unfoldable pub start_deferred : ℕ → Session → Session
    unfolding issue
    start_deferred zero s = s
    start_deferred (suc n) s = elim s.deferred [
      | [] ↦ s
      | r ∷ rs ↦
          let t = start_deferred n (issue (record s { deferred = rs }) r) in
          if is_empty s.run_id then t else s
    ]

    unfoldable pub start_deferred_delivery : Session → Session
    unfolding start_deferred
    start_deferred_delivery s = start_deferred (length s.deferred) s
