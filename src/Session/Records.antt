-- ===== src/Session/Records.antt =====
-- session.go, policy.go and lane.go: what a session goes through keeps its promises accounted for, as
-- long as its worker acknowledges no run that has not ended.
use mathlib.Core.Option.{none-ne-some}
use sessionbus.Base.{
  Bool, Bool-cases, Option, Text, [], arith, false, if_cases, if◌then◌else◌, inl, inr, is_empty,
  length, none, not, refl, some, text_eq, true, ℕ, ◌&&◌, ◌+◌, ◌==◌, ◌||◌, ◌∷◌, ◌≡◌,
}
use sessionbus.Protocol.{Code, RunRef, busy, not_connected}
use sessionbus.Session.Accounting.{
  HasRoom, has_run_capacity_lem, refuse_run-IsAccounted, write_deferred_close-IsAccounted,
}
use sessionbus.Session.Capacity.{
  IsAccounted, answer_routed-IsAccounted, finish_run-IsAccounted, without_call,
}
use sessionbus.Session.Closing.{orderly_stop, record_stop}
use sessionbus.Session.History.{Move, is_closing_call, is_run, responds, settle_calls}
use sessionbus.Session.Promises.{
  acknowledged_run-IsAccounted, acks_present, defer_delivery-IsAccounted, issue-IsAccounted,
  start_deferred_delivery-IsAccounted,
}
use sessionbus.Session.Reservations.{has_run_capacity, refuse_run}
use sessionbus.Session.Responses.{
  Pending, Response, acknowledged_run, answered, delete_request, error_response, executed,
  find_request, finish_close_response, hang_up, invalid_response, is_internal, other_response,
  receive_error, receive_response, receive_result, received, ref_response, retain, retains,
}
use sessionbus.Session.State.{
  Request, Session, answer_routed, current, finish_run, is_ack, is_close, is_execute, reading,
  refusal, result, turn_wait,
}

-- The worker acknowledges the run that the lane still has, by this move.
unfoldable pub confirms : Session → Move → Bool
unfolding acks_present find_request delete_request
confirms s (responds id f) = elim (find_request id s.pending) [
  | none ↦ true
  | some r ↦ not (acks_present (record s { pending = delete_request id s.pending }) r f)
]
confirms s _ = true

delete_request-length :
    (id : ℕ) (p : Pending) (r : Request)
    → find_request id p ≡ some r
    → length (delete_request id p) + 1 ≡ length p
unfolding find_request delete_request
delete_request-length id [] r e = absurd (none-ne-some r e)
delete_request-length id ((n, q) ∷ p) r e = elim (Bool-cases (id == n)) [
  | inl t ↦ grind (t, arith)
  | inr f ↦ grind (f, delete_request-length id p r, arith)
]

pub settle_calls-IsAccounted :
    (code : Code) (p : Pending) (s : Session) → IsAccounted s → IsAccounted (settle_calls code p s)
unfolding settle_calls
settle_calls-IsAccounted code [] s h = without_call (omega arith) h
settle_calls-IsAccounted code ((n, r) ∷ p) s h =
    let t = if is_run r.method then finish_run s else s in
    let k = if_cases IsAccounted (is_run r.method) (λ _. finish_run-IsAccounted s h) (λ _. h) in
    settle_calls-IsAccounted code p
      (if is_closing_call t.close_call r then t else answer_routed t r (refusal code))
      (if_cases IsAccounted (is_closing_call t.close_call r) (λ _. k)
        (λ _. answer_routed-IsAccounted t r (refusal code) k))

module _ (accepts : ℕ → Bool) (fresh : Text) where
  retain-IsAccounted :
      (s : Session) (r : Request) (c : Code)
      → retains s r c ≡ true
      → HasRoom s
      → IsAccounted s
      → IsAccounted (retain accepts fresh s r)
  unfolding retain retains
  retain-IsAccounted s r c e l h =
      if_cases IsAccounted (is_empty s.run_id) (λ _. issue-IsAccounted accepts fresh s r h)
        (λ _.
          if_cases IsAccounted (not (has_run_capacity s))
            (λ _. answer_routed-IsAccounted s r (refusal busy) h)
            (λ p.
              defer_delivery-IsAccounted s r (has_run_capacity_lem s h (ground arith)) l
                (refl, ground arith, ground arith) h))

  receive_error-IsAccounted :
      (s : Session) (r : Request) (c : Code)
      → HasRoom s
      → IsAccounted s
      → IsAccounted (receive_error accepts fresh s r c)
  unfolding receive_error
  receive_error-IsAccounted s r c l h =
      let refused = not (is_empty r.run_id) && (is_execute r.method || not (is_internal c)) in
      let t = if refused then refuse_run s r.run_id else s in
      if_cases IsAccounted (retains s r c) (λ e. retain-IsAccounted s r c e l h)
        (λ _. start_deferred_delivery-IsAccounted accepts fresh (answer_routed t r (refusal c)) (
          answer_routed-IsAccounted t r (refusal c) (
            if_cases IsAccounted refused (λ e. refuse_run-IsAccounted s r.run_id (named _ _ e) h)
              (λ _. h))))
    where
      named : (a b : Bool) → (not a && b) ≡ true → a ≡ false
      named a b e = ground arith

  executed-IsAccounted :
      (s : Session) (r : Request) (ref : RunRef)
      → IsAccounted s
      → IsAccounted (executed accepts fresh s r ref)
  unfolding executed hang_up
  executed-IsAccounted s r ref h =
      if_cases IsAccounted
        (not (text_eq ref.run_id r.run_id) || not (text_eq ref.session_id s.entry.session_id))
        (λ _.
          answer_routed-IsAccounted (record s { wire_closed = true }) r (refusal not_connected) h)
        (λ _.
          if_cases IsAccounted r.collect
            (λ _.
              issue-IsAccounted accepts fresh s
                (record r {
                  method = turn_wait;
                  params = reading (record { session_id = ref.session_id; run_id = ref.run_id });
                  run_id = [];
                })
                h)
            (λ _. answer_routed-IsAccounted s r result h))

  result-IsAccounted :
      (s : Session) (r : Request)
      → (is_ack r.method
          && not (is_empty s.run_id)
          && ((acknowledged_run s r).acknowledged == s.run_sequence))
        ≡ false
      → IsAccounted s
      → IsAccounted (answer_routed (if is_ack r.method then acknowledged_run s r else s) r result)
  result-IsAccounted s r e h =
      answer_routed-IsAccounted (if is_ack r.method then acknowledged_run s r else s) r result (
        if_cases IsAccounted (is_ack r.method)
          (λ a. acknowledged_run-IsAccounted s r (λ p. other _ _ _ a e p) h) (λ _. h))
    where
      other : (a b c : Bool) → a ≡ true → (a && not b && c) ≡ false → b ≡ false → c ≡ false
      other a b c p q r = ground arith

  answered-IsAccounted :
      (s : Session) (r : Request) (f : Response)
      → acks_present s r f ≡ false
      → HasRoom s
      → IsAccounted s
      → IsAccounted (answered accepts fresh s r f)
  unfolding answered acks_present finish_close_response hang_up orderly_stop record_stop
      receive_result
  answered-IsAccounted s r f e l h =
      if_cases IsAccounted (not (s.entry.number == r.destination) || not (current s r.destination))
        (λ _. answer_routed-IsAccounted s r (refusal not_connected) h)
        (λ _. if_cases IsAccounted (is_close r.method) (λ _. closed f) (λ _. open_ f e))
    where
      stopped : IsAccounted (orderly_stop s)
      stopped = if_cases IsAccounted (not s.process_exited && not s.close_timer) (λ _. h) (λ _. h)

      closed : (f : Response) → IsAccounted (finish_close_response s f)
      closed (error_response c) = h
      closed invalid_response = h
      closed (ref_response ref) = stopped
      closed other_response = stopped

      open_ :
          (f : Response)
          → acks_present s r f ≡ false
          → IsAccounted (elim f [
            | error_response c ↦ receive_error accepts fresh s r c
            | invalid_response ↦ answer_routed (hang_up s) r (refusal not_connected)
            | other ↦ receive_result accepts fresh s r other
          ])
      open_ (error_response c) e = receive_error-IsAccounted s r c l h
      open_ invalid_response e = answer_routed-IsAccounted (hang_up s) r (refusal not_connected) h
      open_ (ref_response ref) e =
          if_cases IsAccounted (is_execute r.method) (λ _. executed-IsAccounted s r ref h)
            (λ _. result-IsAccounted s r e h)
      open_ other_response e = result-IsAccounted s r e h

  pub receive_response-IsAccounted :
      (s : Session) (id : ℕ) (f : Response)
      → confirms s (responds id f) ≡ true
      → IsAccounted s
      → IsAccounted (receive_response accepts fresh s id f)
  unfolding receive_response received confirms hang_up
  receive_response-IsAccounted s id f e h = by_call (find_request id s.pending) refl e
    where
      room :
          (r : Request)
          → find_request id s.pending ≡ some r
          → HasRoom (record s { pending = delete_request id s.pending })
      room r p c = omega (arith, h.calls c, delete_request-length id s.pending r p)

      by_call :
          (o : Option Request)
          → find_request id s.pending ≡ o
          → elim o [
            | none ↦ true
            | some r ↦ not (acks_present (record s { pending = delete_request id s.pending }) r f)
          ]
            ≡ true
          → IsAccounted (elim o [
            | none ↦ hang_up (record s { stopping = true })
            | some r ↦
                received accepts fresh (record s { pending = delete_request id s.pending }) r f
          ])
      by_call none p e = h
      by_call (some r) p e =
          let t = record s { pending = delete_request id s.pending } in
          let k =
            answered-IsAccounted t r f (ground arith) (room r p)
              (without_call (omega (arith, delete_request-length id s.pending r p)) h) in
          if_cases IsAccounted (is_execute r.method && r.collect)
            (λ _. write_deferred_close-IsAccounted accepts (answered accepts fresh t r f) k)
            (λ _. k)
