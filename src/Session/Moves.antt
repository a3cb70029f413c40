-- ===== src/Session/Moves.antt =====
-- session.go: everything that a session goes through keeps its promises accounted for.
use sessionbus.Base.{
  Bool, List, Text, [], arith, false, if_cases, if◌then◌else◌, is_empty, is_none, is_some, ltb, not,
  option_cases, some, text_eq, true, ℕ, ◌&&◌, ◌+◌, ◌==◌, ◌||◌, ◌∷◌, ◌≡◌,
}
use sessionbus.Base.Int.{pos_part}
use sessionbus.Protocol.{Code, RunRef, not_connected}
use sessionbus.Session.Accounting.{begin_close-IsAccounted, settle_deferred-IsAccounted}
use sessionbus.Session.Capacity.{
  IsAccounted, answer_routed-IsAccounted, finish_run-IsAccounted, without_run,
}
use sessionbus.Session.Closing.{hard_stop, orderly_stop, record_stop, settle_deferred}
use sessionbus.Session.History.{
  Move, connection_closed, detach, displace, displaced, ends, event, exits, expires, finish,
  finish_lane, finishes, hellos, history, kills, owner_ends, peer_hello, policy_close, posted,
  process_ended, readies, rejects, rename, replied, responds, route, routed, routes, settle_pending,
  shuts_down, step, supersede, supersedes, wire_ended,
}
use sessionbus.Session.Promises.{issue-IsAccounted, start_deferred_delivery-IsAccounted}
use sessionbus.Session.Records.{confirms, receive_response-IsAccounted, settle_calls-IsAccounted}
use sessionbus.Session.Reservations.{set_deadline, stop_auto_close}
use sessionbus.Session.Responses.{hang_up, notify_target, reject_frame, run_ended, turn_ready}
use sessionbus.Session.State.{
  Entry, Request, Session, closing, finish_run, new_session, refusal, session_close,
}

-- No move acknowledges a run that the lane still has.
unfoldable pub confirmed : (ℕ → Bool) → Text → Session → List Move → Bool
unfolding confirms step
confirmed accepts fresh s [] = true
confirmed accepts fresh s (m ∷ ms) =
    confirms s m && confirmed accepts fresh (step accepts fresh s m) ms

settle_pending-IsAccounted :
    (s : Session) (code : Code) → IsAccounted s → IsAccounted (settle_pending s code)
unfolding settle_pending
settle_pending-IsAccounted s code h =
    let t = settle_deferred code s.deferred s in
    settle_calls-IsAccounted code t.pending t (settle_deferred-IsAccounted code s.deferred s h)

wire_ended-IsAccounted : (s : Session) → IsAccounted s → IsAccounted (wire_ended s)
unfolding wire_ended connection_closed stop_auto_close detach orderly_stop record_stop
wire_ended-IsAccounted s h =
    if_cases IsAccounted t.entry.peer (λ _. closed)
      (λ _.
        if_cases IsAccounted (not t.process_exited && not t.close_timer) (λ _. closed)
          (λ _. closed))
  where
    t : Session
    t = connection_closed s

    closed : IsAccounted t
    closed =
        if_cases IsAccounted s.closed (λ _. h)
          (λ _.
            let u = record s {
              auto_close = false;
              stopping = true;
              closed = true;
              wire_closed = true;
            } in
            settle_pending-IsAccounted (detach u) not_connected
              (if_cases IsAccounted u.entry.attached (λ _. h) (λ _. h)))

process_ended-IsAccounted : (s : Session) → IsAccounted s → IsAccounted (process_ended s)
unfolding process_ended
process_ended-IsAccounted s h = if_cases IsAccounted s.process_exited (λ _. h) (λ _. h)

finish_lane-IsAccounted : (s : Session) (d : Bool) → IsAccounted s → IsAccounted (finish_lane s d)
unfolding finish_lane stop_auto_close
finish_lane-IsAccounted s d h = option_cases IsAccounted s.close_call (λ _. h) (λ _ _. h)

peer_hello-IsAccounted :
    (s : Session) (number : ℕ) (id : Text) (valid accepted sent : Bool)
    → IsAccounted s
    → IsAccounted (peer_hello s number id valid accepted sent)
unfolding peer_hello reject_frame hang_up rename
peer_hello-IsAccounted s number id valid accepted sent h =
    if_cases IsAccounted (not s.entry.peer || not valid || not s.entry.attached || not accepted)
      (λ _. h)
      (λ _.
        let g =
          if_cases IsAccounted (text_eq id s.entry.session_id) (λ _. h)
            (λ _. settle_pending-IsAccounted s not_connected h) in
        if_cases IsAccounted sent (λ _. g) (λ _. g))

module _ (accepts : ℕ → Bool) (fresh : Text) where
  run_ended-IsAccounted :
      (s : Session) (ended : Bool) (now : ℕ) (sent : Bool)
      → IsAccounted s
      → IsAccounted (run_ended accepts fresh s ended now sent)
  unfolding run_ended set_deadline stop_auto_close hang_up
  run_ended-IsAccounted s ended now sent h =
      start_deferred_delivery-IsAccounted accepts fresh (if sent then u else hang_up u)
        (if_cases IsAccounted sent (λ _. k) (λ _. k))
    where
      t : Session
      t = finish_run (record s { run_id = []; run_from_trace = false; run_from_completion = false })

      timed : Bool
      timed = ended && ltb 0 (pos_part s.entry.policy.auto_close_ms) && is_none t.close_call

      u : Session
      u = if timed then set_deadline t (some (now + pos_part s.entry.policy.auto_close_ms)) else t

      k : IsAccounted u
      k =
          let l =
            finish_run-IsAccounted
              (record s { run_id = []; run_from_trace = false; run_from_completion = false })
              (without_run h) in
          if_cases IsAccounted timed (λ _. l) (λ _. l)

  turn_ready-IsAccounted :
      (s : Session) (ref : RunRef) (ended : Bool) (now : ℕ) (sent : Bool)
      → IsAccounted s
      → IsAccounted (turn_ready accepts fresh s ref ended now sent)
  unfolding turn_ready reject_frame
  turn_ready-IsAccounted s ref ended now sent h =
      if_cases IsAccounted
        (s.entry.peer
          || not (text_eq ref.session_id s.entry.session_id)
          || is_empty s.run_id
          || not (text_eq ref.run_id s.run_id))
        (λ _. h)
        (λ _.
          if_cases IsAccounted
            (s.entry.policy.notify
              && not s.run_from_completion
              && is_none (run_ended accepts fresh s ended now sent).close_call
              && not (is_empty (notify_target (run_ended accepts fresh s ended now sent))))
            (λ _. run_ended-IsAccounted s ended now sent h)
            (λ _. run_ended-IsAccounted s ended now sent h))

  route-IsAccounted :
      (s : Session) (r : Request) → IsAccounted s → IsAccounted (route accepts fresh s r)
  unfolding route
  route-IsAccounted s r h =
      if_cases IsAccounted
        (s.stopping || not (r.destination == s.entry.number) || not s.entry.peer && not s.committed)
        (λ _. answer_routed-IsAccounted s r (refusal not_connected) h)
        (λ _. issue-IsAccounted accepts fresh s r h)

  policy_close-IsAccounted :
      (s : Session) (ticket : ℕ) → IsAccounted s → IsAccounted (policy_close accepts s ticket)
  unfolding policy_close stop_auto_close
  policy_close-IsAccounted s ticket h =
      if_cases IsAccounted (s.stopping || is_some s.close_call || not s.committed) (λ _. h)
        (λ _.
          begin_close-IsAccounted accepts (record s { auto_close = false })
            (routed ticket s.entry.number session_close (closing false) false false) h)

  event-IsAccounted :
      (s : Session) (m : Move)
      → confirms s m ≡ true
      → IsAccounted s
      → IsAccounted (event accepts fresh s m)
  unfolding event hard_stop record_stop finish displace supersede reject_frame hang_up orderly_stop
  event-IsAccounted s (routes ticket destination method params trace_copy completion) e h =
      route-IsAccounted s (routed ticket destination method params trace_copy completion) h
  event-IsAccounted s (responds id f) e h =
      if_cases IsAccounted s.stopping (λ _. h)
        (λ _. receive_response-IsAccounted accepts fresh s id f e h)
  event-IsAccounted s (readies ref ended now sent) e h =
      if_cases IsAccounted s.stopping (λ _. h) (λ _. turn_ready-IsAccounted s ref ended now sent h)
  event-IsAccounted s (expires ticket) e h =
      if_cases IsAccounted s.auto_close
        (λ _. policy_close-IsAccounted (record s { auto_close = false }) ticket h) (λ _. h)
  event-IsAccounted s (owner_ends ticket) e h =
      if_cases IsAccounted s.entry.policy.persistent (λ _. h)
        (λ _. policy_close-IsAccounted s ticket h)
  event-IsAccounted s ends e h = wire_ended-IsAccounted s h
  event-IsAccounted s exits e h = process_ended-IsAccounted s h
  event-IsAccounted s kills e h = if_cases IsAccounted s.close_timer (λ _. h) (λ _. h)
  event-IsAccounted s (finishes deleted) e h =
      if_cases IsAccounted (s.closed && (s.entry.peer || s.process_exited))
        (λ _. if_cases IsAccounted s.entry.peer (λ _. h) (λ _. finish_lane-IsAccounted s deleted h))
        (λ _. h)
  event-IsAccounted s displaced e h =
      if_cases IsAccounted (s.entry.peer && s.entry.listed) (λ _. h) (λ _. h)
  event-IsAccounted s supersedes e h = if_cases IsAccounted s.stopping (λ _. h) (λ _. h)
  event-IsAccounted s (hellos number id valid accepted sent) e h =
      if_cases IsAccounted s.stopping (λ _. h)
        (λ _. peer_hello-IsAccounted s number id valid accepted sent h)
  event-IsAccounted s (rejects sent) e h = if_cases IsAccounted s.stopping (λ _. h) (λ _. h)
  event-IsAccounted s (replied sent) e h = if_cases IsAccounted sent (λ _. h) (λ _. h)
  event-IsAccounted s shuts_down e h =
      if_cases IsAccounted (not s.process_exited && not s.close_timer) (λ _. h) (λ _. h)

  pub run-IsAccounted :
      (s : Session) (ms : List Move)
      → confirmed accepts fresh s ms ≡ true
      → IsAccounted s
      → IsAccounted (history accepts fresh s ms)
  unfolding history confirmed step
  run-IsAccounted s [] e h = h
  run-IsAccounted s (m ∷ ms) e h = run-IsAccounted (step accepts fresh s m) ms (ground arith) (
      if_cases IsAccounted (s.finished || not (posted s m)) (λ _. h)
        (λ _. event-IsAccounted s m (ground arith) h))

new_session-IsAccounted : (e : Entry) → IsAccounted (new_session e)
unfolding new_session
new_session-IsAccounted e = record {
  bound = omega arith;
  present = λ p. absurd (ground arith);
  numbered = omega arith;
  cursor = omega arith;
  waiting = tt;
  calls = λ _. omega arith;
}

-- Whatever a new session goes through, if its worker never acknowledges the run that the lane still
-- has: the numbers of runs not acknowledged and of deliveries that wait for a run are together at most
-- 256, counted modulo 2 ^ 64; a run that is present is one of the former; each delivery that waits has
-- been answered, is a `message.deliver` and has no run yet; and until the lane is being closed, the
-- calls that wait for an answer and those deliveries are at most 256.
pub history-IsAccounted :
    (accepts : ℕ → Bool) (fresh : Text) (e : Entry) (ms : List Move)
    → confirmed accepts fresh (new_session e) ms ≡ true
    → IsAccounted (history accepts fresh (new_session e) ms)
history-IsAccounted accepts fresh e ms c =
    run-IsAccounted accepts fresh (new_session e) ms c (new_session-IsAccounted e)
