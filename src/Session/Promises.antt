-- ===== src/Session/Promises.antt =====
-- session.go and delivery_queue.go: requests, responses and acknowledgments keep a session's promises
-- accounted for.
use mathlib.Core.Option.{none-ne-some}
use sessionbus.Base.{
  Bool, List, Option, Text, [], arith, false, if_cases, if◌then◌else◌, is_empty, is_some, leb,
  length, none, not, option_cases, refl, some, suc, true, zero, ℕ, ◌&&◌, ◌++◌, ◌+◌, ◌<◌, ◌==◌, ◌∷◌,
  ◌≡◌, ◌≤◌,
}
use sessionbus.Protocol.{RunRef, busy, is_ok, max_operations}
use sessionbus.Runs.RunId.{cut, parse_uint}
use sessionbus.Session.Accounting.{HasRoom, begin_close-IsAccounted, issue_admitted-IsAccounted}
use sessionbus.Session.Capacity.{
  IsAccounted, IsDeferred, answer_routed-IsAccounted, promised, with_acknowledged, with_deferred,
  without_first,
}
use sessionbus.Session.Issue.{
  as_execute, issue, issue_checked, start_deferred, start_deferred_delivery,
}
use sessionbus.Session.Reservations.{acknowledged_by, record_acknowledgment}
use sessionbus.Session.Responses.{
  Response, acknowledged_run, defer_delivery, error_response, invalid_response,
}
use sessionbus.Session.State.{
  Params, Request, Session, admit, answer_routed, closing, delivery, execution, input, is_ack,
  is_close, opaque, reading, reference, refusal,
}

-- The worker's answer acknowledges the run that the lane still has.
unfoldable pub acks_present : Session → Request → Response → Bool
unfolding is_ack acknowledged_run
acks_present s r (error_response c) = false
acks_present s r invalid_response = false
acks_present s r _ =
    is_ack r.method
    && not (is_empty s.run_id)
    && ((acknowledged_run s r).acknowledged == s.run_sequence)

acknowledged_by_lem :
    (s : Session) (ref : RunRef) (c : Text × Text × Bool) (o : Option ℕ) (n : ℕ)
    → acknowledged_by s ref c o ≡ some n
    → (n ≤ s.run_sequence) × (s.acknowledged < n)
unfolding acknowledged_by
acknowledged_by_lem s ref (g, t, ok) none n e = absurd (none-ne-some n e)
acknowledged_by_lem s ref (g, t, ok) (some m) n e = (ground arith, ground arith)

-- The run that is present in `s` is not acknowledged in `t`, and the promises stay accounted for.
abbrev pub Keeps : Session → Session → Type 0
Keeps s t =
    (is_empty s.run_id ≡ false → (t.acknowledged == s.run_sequence) ≡ false)
    → IsAccounted s
    → IsAccounted t

record_acknowledgment-IsAccounted :
    (s : Session) (ref : RunRef) → Keeps s (record_acknowledgment s ref)
unfolding record_acknowledgment
record_acknowledgment-IsAccounted s ref =
    option_cases (Keeps s) (acknowledged_by s ref (cut ref.run_id) (parse_uint (cut ref.run_id).1))
      (λ _ _ h. h)
      (λ n e o h.
        let l = acknowledged_by_lem s ref (cut ref.run_id) (parse_uint (cut ref.run_id).1) n e in
        with_acknowledged n l.0 l.1 o h)

pub acknowledged_run-IsAccounted : (s : Session) (r : Request) → Keeps s (acknowledged_run s r)
unfolding acknowledged_run
acknowledged_run-IsAccounted s r = by_params r.params
  where
    by_params :
        (p : Params) → Keeps s (elim p [ reference ref ↦ record_acknowledgment s ref | _ ↦ s ])
    by_params (reference ref) o h = record_acknowledgment-IsAccounted s ref o h
    by_params (input t) o h = h
    by_params (execution a b c) o h = h
    by_params (reading a) o h = h
    by_params (delivery a) o h = h
    by_params (closing a) o h = h
    by_params opaque o h = h

pub defer_delivery-IsAccounted :
    (s : Session) (r : Request)
    → promised s.run_sequence s.acknowledged + length s.deferred < max_operations
    → HasRoom s
    → IsDeferred (record r { scheduled = true })
    → IsAccounted s
    → IsAccounted (defer_delivery s r)
unfolding defer_delivery answer_routed
defer_delivery-IsAccounted s r l k d h =
    if_cases
      (λ t. IsAccounted (record t { deferred = t.deferred ++ record r { scheduled = true } ∷ [] }))
      r.scheduled (λ _. with_deferred (record r { scheduled = true }) l k d h)
      (λ _. with_deferred (record r { scheduled = true }) l k d h)

module _ (accepts : ℕ → Bool) (fresh : Text) where
  issue_checked-IsAccounted :
      (s : Session) (r : Request)
      → HasRoom s
      → IsAccounted s
      → IsAccounted (issue_checked accepts fresh s r)
  unfolding issue_checked
  issue_checked-IsAccounted s r l h =
      if_cases IsAccounted (not (is_ok (admit s.entry r.method)))
        (λ _. answer_routed-IsAccounted s r (refusal (admit s.entry r.method)) h)
        (λ _.
          if_cases IsAccounted (is_close r.method) (λ _. begin_close-IsAccounted accepts s r h)
            (λ _. issue_admitted-IsAccounted accepts fresh s r l h))

  pub issue-IsAccounted :
      (s : Session) (r : Request) → IsAccounted s → IsAccounted (issue accepts fresh s r)
  unfolding issue
  issue-IsAccounted s r h =
      if_cases IsAccounted (is_some s.close_call && not r.collect)
        (λ _. answer_routed-IsAccounted s r (refusal busy) h)
        (λ _.
          if_cases IsAccounted (leb max_operations (length s.pending + length s.deferred))
            (λ _. answer_routed-IsAccounted s r (refusal busy) h)
            (λ e. issue_checked-IsAccounted s (as_execute r) (λ _. less _ e) h))
    where
      less : (n : ℕ) → leb 256 n ≡ false → n < 256
      less n e = ground arith

  start_deferred-IsAccounted :
      (n : ℕ) (s : Session) → IsAccounted s → IsAccounted (start_deferred accepts fresh n s)
  unfolding start_deferred
  start_deferred-IsAccounted zero s h = h
  start_deferred-IsAccounted (suc n) s h =
      by_deferred (start_deferred-IsAccounted n) s.deferred refl
    where
      by_deferred :
          ((t : Session) → IsAccounted t → IsAccounted (start_deferred accepts fresh n t))
          → (ds : List Request) → s.deferred ≡ ds
          → IsAccounted (elim ds [
            | [] ↦ s
            | r ∷ rs ↦
                let t =
                  start_deferred accepts fresh n
                    (issue accepts fresh (record s { deferred = rs }) r) in
                if is_empty s.run_id then t else s
          ])
      by_deferred ih [] e = h
      by_deferred ih (r ∷ rs) e =
          if_cases IsAccounted (is_empty s.run_id)
            (λ _.
              ih (issue accepts fresh (record s { deferred = rs }) r)
                (issue-IsAccounted (record s { deferred = rs }) r (without_first e h)))
            (λ _. h)

  pub start_deferred_delivery-IsAccounted :
      (s : Session) → IsAccounted s → IsAccounted (start_deferred_delivery accepts fresh s)
  unfolding start_deferred_delivery
  start_deferred_delivery-IsAccounted s h = start_deferred-IsAccounted (length s.deferred) s h
