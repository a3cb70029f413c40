-- ===== src/Session/Issuing.antt =====
-- session.go and delivery_queue.go: `issue` and `startDeferredDelivery`, with the answers on one channel.
use mathlib.Core.Bool.{false≢true, true≢false}
use sessionbus.Base.{
  Bool, List, Option, Text, [], ap, arith, as_count, false, if_cases, if◌then◌else◌, is_empty,
  is_some, leb, length, none, not, refl, some, subst, suc, sym, true, zero, ℕ, ◌&&◌, ◌+◌, ◌==◌,
  ◌||◌, ◌∙◌, ◌∷◌, ◌≡◌,
}
use sessionbus.Protocol.{busy, is_ok, max_operations}
use sessionbus.Session.Answering.{
  IsIssuable, begin_close-IsOpen, with_waiting, write_request-IsOpen,
}
use sessionbus.Session.Answers.{IsCloseCall, IsOpen, answer_routed-IsOpen, closes, mine, with_total}
use sessionbus.Session.Capacity.{AllDeferred, IsDeferred}
use sessionbus.Session.Draining.{deliver_only}
use sessionbus.Session.Issue.{
  addressed, as_execute, deliver_run, execute_run, input_text, issue, issue_admitted, issue_checked,
  start_deferred, start_deferred_delivery, starts_run,
}
use sessionbus.Session.Reservations.{has_run_capacity, reserve_run, set_deadline, stop_auto_close}
use sessionbus.Session.State.{
  Method, Request, Session, admit, delivery, execution, is_close, is_deliver, is_execute,
  message_deliver, other_call, refusal, session_close, turn_ack, turn_execute, turn_interrupt,
  turn_run, turn_start, turn_status, turn_wait,
}

as_execute_cases :
    (P : Request → Type 0) (r : Request)
    → ((b : Bool) → P (record r { method = turn_execute; collect = b }))
    → P r
    → P (as_execute r)
unfolding as_execute
as_execute_cases P r f h = by_method r.method
  where
    by_method :
        (m : Method)
        → P (elim m [
          | turn_run ↦ record r { method = turn_execute; collect = true }
          | turn_start ↦ record r { method = turn_execute; collect = false }
          | _ ↦ r
        ])
    by_method turn_run = f true
    by_method turn_start = f false
    by_method turn_execute = h
    by_method turn_status = h
    by_method turn_wait = h
    by_method turn_ack = h
    by_method turn_interrupt = h
    by_method message_deliver = h
    by_method session_close = h
    by_method other_call = h

pub deliver-is_close : (m : Method) → is_deliver m ≡ true → is_close m ≡ false
unfolding is_close
deliver-is_close m e = ap is_close (deliver_only m e)

deferred-IsIssuable :
    (k n number : ℕ) (b : Bool) (c : Option Request) (r : Request)
    → IsDeferred r
    → IsIssuable k n number b c r
deferred-IsIssuable k n number b c r d = record {
  own = λ m. absurd (false≢true (ap (λ x. not x && r.ticket == k) (sym d.0) ∙ m));
  shut = λ e. absurd (false≢true (sym (deliver-is_close r.method d.1) ∙ e));
}

module _ (accepts : ℕ → Bool) (k : ℕ) (fresh : Text) where
  execute_run-IsOpen :
      (n : ℕ) (s : Session) (r : Request)
      → (mine k r ≡ true → (closes k s.close_call ≡ false) × (r.destination ≡ s.entry.number))
      → is_close r.method ≡ false
      → IsOpen k n s
      → IsOpen k (n + as_count (mine k r)) (execute_run accepts fresh s r)
  unfolding execute_run reserve_run set_deadline stop_auto_close
  execute_run-IsOpen n s r o e h =
      let t = reserve_run fresh s in
      write_request-IsOpen accepts k n t
        (record r {
          run_id = t.run_id;
          params = execution t.entry.session_id t.run_id (input_text r.params);
        })
        o e h

  deliver_run-IsOpen :
      (n : ℕ) (s : Session) (r : Request)
      → (mine k r ≡ true → (closes k s.close_call ≡ false) × (r.destination ≡ s.entry.number))
      → is_close r.method ≡ false
      → IsOpen k n s
      → IsOpen k (n + as_count (mine k r)) (deliver_run accepts fresh s r)
  unfolding deliver_run reserve_run set_deadline stop_auto_close
  deliver_run-IsOpen n s r o e h =
      let t = reserve_run fresh s in
      write_request-IsOpen accepts k n
        (record t { run_from_trace = r.trace_copy; run_from_completion = r.completion })
        (record r { run_id = t.run_id; params = delivery t.run_id }) o e h

  issue_admitted-IsOpen :
      (n : ℕ) (s : Session) (r : Request)
      → (mine k r ≡ true → (closes k s.close_call ≡ false) × (r.destination ≡ s.entry.number))
      → is_close r.method ≡ false
      → IsOpen k n s
      → IsOpen k (n + as_count (mine k r)) (issue_admitted accepts fresh s r)
  unfolding issue_admitted addressed
  issue_admitted-IsOpen n s r o e h =
      let P = IsOpen k (n + as_count (mine k r)) in
      if_cases P ((is_execute r.method || starts_run s r) && not (has_run_capacity s))
        (λ _. answer_routed-IsOpen k n s r (refusal busy) h)
        (λ _.
          if_cases P (is_execute r.method) (λ _. execute_run-IsOpen n s r o e h)
            (λ _.
              if_cases P (starts_run s r)
                (λ _.
                  if_cases P (is_some s.close_call)
                    (λ _. answer_routed-IsOpen k n s r (refusal busy) h)
                    (λ _. deliver_run-IsOpen n s r o e h))
                (λ _. write_request-IsOpen accepts k n s (addressed s r) o e h)))

  issue_checked-IsOpen :
      (n : ℕ) (s : Session) (r : Request)
      → (mine k r ≡ true → (closes k s.close_call ≡ false) × (r.destination ≡ s.entry.number))
      → (is_close r.method ≡ true
          → (s.close_call ≡ none)
            × (s.entry.peer ≡ false)
            × IsCloseCall s.entry.number (some r)
            × ((r.ticket == k) ≡ true → n ≡ 0))
      → IsOpen k n s
      → IsOpen k (n + as_count (mine k r)) (issue_checked accepts fresh s r)
  unfolding issue_checked
  issue_checked-IsOpen n s r o i h =
      let P = IsOpen k (n + as_count (mine k r)) in
      if_cases P (not (is_ok (admit s.entry r.method)))
        (λ _. answer_routed-IsOpen k n s r (refusal (admit s.entry r.method)) h)
        (λ _.
          if_cases P (is_close r.method)
            (λ e. let j = i e in begin_close-IsOpen accepts k n s r j.0 j.1 j.2 j.3 h)
            (λ e. issue_admitted-IsOpen n s r o e h))

  pub issue-IsOpen :
      (n : ℕ) (s : Session) (r : Request)
      → IsIssuable k n s.entry.number s.entry.peer s.close_call r
      → IsOpen k n s
      → IsOpen k (n + as_count (mine k r)) (issue accepts fresh s r)
  unfolding issue is_close
  issue-IsOpen n s r i h =
      let P = IsOpen k (n + as_count (mine k r)) in
      if_cases P (is_some s.close_call && not r.collect)
        (λ _. answer_routed-IsOpen k n s r (refusal busy) h)
        (λ e.
          if_cases P (leb max_operations (length s.pending + length s.deferred))
            (λ _. answer_routed-IsOpen k n s r (refusal busy) h)
            (λ _.
              as_execute_cases (λ q. P (issue_checked accepts fresh s q)) r
                (λ b.
                  issue_checked-IsOpen n s (record r { method = turn_execute; collect = b }) i.own
                    (λ p. absurd (false≢true p)) h)
                (issue_checked-IsOpen n s r i.own
                  (λ p.
                    let j = i.shut p in
                    (no_call s.close_call r.collect e j.1, j.3, (p, j.0, j.2), j.4))
                  h)))
    where
      no_call :
          (o : Option Request) (b : Bool) → (is_some o && not b) ≡ false → b ≡ false → o ≡ none
      no_call none b e f = refl
      no_call (some c) true e f = absurd (true≢false f)
      no_call (some c) false e f = absurd (true≢false e)

  start_deferred-IsOpen :
      (m n : ℕ) (s : Session) → IsOpen k n s → IsOpen k n (start_deferred accepts fresh m s)
  unfolding start_deferred
  start_deferred-IsOpen zero n s h = h
  start_deferred-IsOpen (suc m) n s h = by_deferred (start_deferred-IsOpen m n) s.deferred refl
    where
      unanswered : (r : Request) → r.scheduled ≡ true → n + as_count (mine k r) ≡ n
      unanswered r e = ap (λ x. n + as_count (not x && r.ticket == k)) e ∙ omega arith

      by_deferred :
          ((t : Session) → IsOpen k n t → IsOpen k n (start_deferred accepts fresh m t))
          → (ds : List Request) → s.deferred ≡ ds
          → IsOpen k n (elim ds [
            | [] ↦ s
            | r ∷ rs ↦
                let t =
                  start_deferred accepts fresh m
                    (issue accepts fresh (record s { deferred = rs }) r) in
                if is_empty s.run_id then t else s
          ])
      by_deferred ih [] e = h
      by_deferred ih (r ∷ rs) e =
          let w = subst AllDeferred e h.waiting in
          if_cases (IsOpen k n) (is_empty s.run_id)
            (λ _. ih (issue accepts fresh (record s { deferred = rs }) r) (
              with_total (unanswered r w.0.0) (
                issue-IsOpen n (record s { deferred = rs }) r
                  (deferred-IsIssuable k n s.entry.number s.entry.peer s.close_call r w.0)
                  (with_waiting rs w.1 h))))
            (λ _. h)

  pub start_deferred_delivery-IsOpen :
      (n : ℕ) (s : Session) → IsOpen k n s → IsOpen k n (start_deferred_delivery accepts fresh s)
  unfolding start_deferred_delivery
  start_deferred_delivery-IsOpen n s h = start_deferred-IsOpen (length s.deferred) n s h
