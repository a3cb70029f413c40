-- ===== src/Session/Exhaustion.antt =====
-- delivery_queue.go: the loop of `startDeferredDelivery` ends because no request that is issued makes a
-- delivery wait again.
use sessionbus.Base.{
  Bool, List, Text, [], ap, arith, false, if_cases, if◌then◌else◌, inl, inr, is_empty, is_some, leb,
  length, not, refl, suc, text_eq, zero, ℕ, ◌&&◌, ◌+◌, ◌||◌, ◌∷◌, ◌≡◌, ◌≤◌, ◌⊎◌,
}
use sessionbus.Protocol.{Code, busy, is_ok, max_operations, not_connected}
use sessionbus.Session.Closing.{
  begin_close, blocks_close, hard_stop, record_stop, settle_deferred, write_close,
  write_deferred_close,
}
use sessionbus.Session.Issue.{
  addressed, as_execute, deliver_run, execute_run, input_text, issue, issue_admitted, issue_checked,
  start_deferred, start_deferred_delivery, starts_run, write_request,
}
use sessionbus.Session.Reservations.{
  has_run_capacity, refuse_run, reserve_run, set_deadline, stop_auto_close,
}
use sessionbus.Session.State.{
  Answer, Request, Session, admit, answer_routed, delivery, execution, finish_run, is_close,
  is_execute, refusal,
}

abbrev AtMost : ℕ → Session → Type 0
AtMost k s = length s.deferred ≤ k

-- The loop's condition is false.
abbrev pub IsSettled : Session → Type 0
IsSettled s = (is_empty s.run_id ≡ false) ⊎ (s.deferred ≡ [])

answer_routed-AtMost :
    (k : ℕ) (s : Session) (r : Request) (a : Answer) → AtMost k s → AtMost k (answer_routed s r a)
unfolding answer_routed
answer_routed-AtMost k s r a h = if_cases (AtMost k) r.scheduled (λ _. h) (λ _. h)

refuse_run-AtMost : (k : ℕ) (s : Session) (id : Text) → AtMost k s → AtMost k (refuse_run s id)
unfolding refuse_run set_deadline stop_auto_close finish_run
refuse_run-AtMost k s id h =
    if_cases (AtMost k) (text_eq s.run_id id)
      (λ _. if_cases (AtMost k) s.entry.attached (λ _. h) (λ _. h)) (λ _. h)

settle_deferred-AtMost :
    (k : ℕ) (code : Code) (rs : List Request) (s : Session) → AtMost k (settle_deferred code rs s)
unfolding settle_deferred
settle_deferred-AtMost k code [] s = omega arith
settle_deferred-AtMost k code (r ∷ rs) s =
    settle_deferred-AtMost k code rs (answer_routed s r (refusal code))

module _ (accepts : ℕ → Bool) where
  begin_close-AtMost : (k : ℕ) (s : Session) (r : Request) → AtMost k (begin_close accepts s r)
  unfolding begin_close write_deferred_close write_close hard_stop record_stop stop_auto_close
  begin_close-AtMost k s r =
      if_cases (AtMost k) (t.closed || t.stopping) (λ _. h)
        (λ _.
          if_cases (AtMost k) (blocks_close t.pending) (λ _. h)
            (λ _. if_cases (AtMost k) (accepts (t.next_out + 1)) (λ _. h) (λ _. h)))
    where
      u : Session
      u = record s { auto_close = false }

      t : Session
      t = settle_deferred busy s.deferred u

      h : AtMost k t
      h = settle_deferred-AtMost k busy s.deferred u

  write_request-AtMost :
      (k : ℕ) (s : Session) (r : Request) → AtMost k s → AtMost k (write_request accepts s r)
  unfolding write_request
  write_request-AtMost k s r h =
      if_cases (AtMost k) (accepts (s.next_out + 1)) (λ _. h)
        (λ _.
          let t = record s { next_out = s.next_out + 1 } in
          answer_routed-AtMost k (if is_empty r.run_id then t else refuse_run t r.run_id) r
            (refusal not_connected)
            (if_cases (AtMost k) (is_empty r.run_id) (λ _. h)
              (λ _. refuse_run-AtMost k t r.run_id h)))

  module _ (fresh : Text) where
    issue_admitted-AtMost :
        (k : ℕ) (s : Session) (r : Request)
        → AtMost k s
        → AtMost k (issue_admitted accepts fresh s r)
    unfolding issue_admitted execute_run deliver_run reserve_run set_deadline stop_auto_close
    issue_admitted-AtMost k s r h =
        let t = reserve_run fresh s in
        if_cases (AtMost k) ((is_execute r.method || starts_run s r) && not (has_run_capacity s))
          (λ _. answer_routed-AtMost k s r (refusal busy) h)
          (λ _.
            if_cases (AtMost k) (is_execute r.method)
              (λ _.
                write_request-AtMost k t
                  (record r {
                    run_id = t.run_id;
                    params = execution t.entry.session_id t.run_id (input_text r.params);
                  })
                  h)
              (λ _.
                if_cases (AtMost k) (starts_run s r)
                  (λ _.
                    if_cases (AtMost k) (is_some s.close_call)
                      (λ _. answer_routed-AtMost k s r (refusal busy) h)
                      (λ _.
                        write_request-AtMost k
                          (record t {
                            run_from_trace = r.trace_copy;
                            run_from_completion = r.completion;
                          })
                          (record r { run_id = t.run_id; params = delivery t.run_id }) h))
                  (λ _. write_request-AtMost k s (addressed s r) h)))

    issue-AtMost :
        (k : ℕ) (s : Session) (r : Request) → AtMost k s → AtMost k (issue accepts fresh s r)
    unfolding issue issue_checked
    issue-AtMost k s r h =
        let q = as_execute r in
        if_cases (AtMost k) (is_some s.close_call && not r.collect)
          (λ _. answer_routed-AtMost k s r (refusal busy) h)
          (λ _.
            if_cases (AtMost k) (leb max_operations (length s.pending + length s.deferred))
              (λ _. answer_routed-AtMost k s r (refusal busy) h)
              (λ _.
                if_cases (AtMost k) (not (is_ok (admit s.entry q.method)))
                  (λ _. answer_routed-AtMost k s q (refusal (admit s.entry q.method)) h)
                  (λ _.
                    if_cases (AtMost k) (is_close q.method) (λ _. begin_close-AtMost k s q)
                      (λ _. issue_admitted-AtMost k s q h))))

    start_deferred-IsSettled :
        (n : ℕ) (s : Session) → AtMost n s → IsSettled (start_deferred accepts fresh n s)
    unfolding start_deferred
    start_deferred-IsSettled zero s h = inr (empty s.deferred h)
      where
        empty : (ds : List Request) → length ds ≤ 0 → ds ≡ []
        empty [] h = refl
        empty (r ∷ ds) h = absurd (omega (arith, h))
    start_deferred-IsSettled (suc n) s h = by_deferred (start_deferred-IsSettled n) s.deferred refl
      where
        by_deferred :
            ((t : Session) → AtMost n t → IsSettled (start_deferred accepts fresh n t))
            → (ds : List Request) → s.deferred ≡ ds
            → IsSettled (elim ds [
              | [] ↦ s
              | r ∷ rs ↦
                  let t =
                    start_deferred accepts fresh n
                      (issue accepts fresh (record s { deferred = rs }) r) in
                  if is_empty s.run_id then t else s
            ])
        by_deferred ih [] e = inr e
        by_deferred ih (r ∷ rs) e =
            if_cases IsSettled (is_empty s.run_id)
              (λ _. ih (issue accepts fresh (record s { deferred = rs }) r) (
                issue-AtMost n (record s { deferred = rs }) r
                  (omega (arith, h, ap (length {A = Request}) e))))
              (λ f. inl f)

    -- After `startDeferredDelivery`, the lane has a run or no delivery waits: as many rounds as
    -- deliveries wait are enough for its loop.
    pub start_deferred_delivery-IsSettled :
        (s : Session) → IsSettled (start_deferred_delivery accepts fresh s)
    unfolding start_deferred_delivery
    start_deferred_delivery-IsSettled s =
        start_deferred-IsSettled (length s.deferred) s (omega arith)
