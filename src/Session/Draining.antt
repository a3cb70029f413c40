-- ===== src/Session/Draining.antt =====
-- delivery_queue.go: the deliveries that wait for a run, when the lane is free.
use mathlib.Core.Bool.{false≢true}
use sessionbus.Base.{
  Bool, List, Text, [], ap, arith, false, if_false, if_true, if◌then◌else◌, is_empty, is_some, leb,
  length, ltb, none, not, refl, subst, suc, sym, true, u64, zero, ℕ, ◌&&◌, ◌++◌, ◌+◌, ◌<◌, ◌∙◌, ◌∷◌,
  ◌≡◌,
}
use sessionbus.Protocol.{is_ok, max_operations, no_error}
use sessionbus.Runs.RunId.{run_name}
use sessionbus.Session.Accounting.{named}
use sessionbus.Session.Capacity.{AllDeferred, IsAccounted}
use sessionbus.Session.Issue.{
  as_execute, deliver_run, issue, issue_admitted, issue_checked, start_deferred,
  start_deferred_delivery, starts_run, write_request,
}
use sessionbus.Session.Reservations.{
  has_run_capacity, outstanding, reserve_run, set_deadline, stop_auto_close,
}
use sessionbus.Session.State.{
  Entry, Method, Request, Session, admit, admitted, delivery, is_close, is_deliver, is_execute,
  is_interrupt, message_deliver, other_call, session_close, turn_ack, turn_execute, turn_interrupt,
  turn_run, turn_start, turn_status, turn_wait,
}

pub deliver_only : (m : Method) → is_deliver m ≡ true → m ≡ message_deliver
unfolding is_deliver
deliver_only message_deliver e = refl
deliver_only turn_run e = absurd (false≢true e)
deliver_only turn_start e = absurd (false≢true e)
deliver_only turn_execute e = absurd (false≢true e)
deliver_only turn_status e = absurd (false≢true e)
deliver_only turn_wait e = absurd (false≢true e)
deliver_only turn_ack e = absurd (false≢true e)
deliver_only turn_interrupt e = absurd (false≢true e)
deliver_only session_close e = absurd (false≢true e)
deliver_only other_call e = absurd (false≢true e)

as_execute-deliver : (r : Request) → r.method ≡ message_deliver → as_execute r ≡ r
unfolding as_execute
as_execute-deliver r e = rw e

admit-deliver : (e : Entry) → e.attached ≡ true → admit e message_deliver ≡ no_error
unfolding admit is_deliver is_execute is_interrupt
admit-deliver e a = if_false _ _ (not_true a) ∙ if_false _ _ (never e.claimed)
  where
    not_true : {b : Bool} → b ≡ true → not b ≡ false
    not_true e = rw e

    never : (b : Bool) → (b && false) ≡ false
    never true = refl
    never false = refl

few_calls :
    (s : Session) (r : Request) (rs : List Request)
    → IsAccounted s
    → s.deferred ≡ r ∷ rs
    → s.close_call ≡ none
    → leb max_operations (length s.pending + length rs) ≡ false
few_calls s r rs h e c = more _ (omega (arith, h.calls c, ap (length {A = Request}) e))
  where
    more : (n : ℕ) → n < 256 → leb 256 n ≡ false
    more n l = ground arith

run_room :
    (s : Session) (r : Request) (rs : List Request)
    → IsAccounted s
    → s.deferred ≡ r ∷ rs
    → has_run_capacity (record s { deferred = rs }) ≡ true
unfolding has_run_capacity outstanding
run_room s r rs h e = less _ (length rs) (omega (arith, h.bound, ap (length {A = Request}) e))
  where
    less : (x y : ℕ) → u64 x + y < 256 → ltb (u64 (u64 x + y)) 256 ≡ true
    less x y l = ground arith

module _ (accepts : ℕ → Bool) (fresh : Text) where
  -- `issue` neither refuses the first delivery that waits nor defers it again.
  issue-deferred :
      (s : Session) (r : Request) (rs : List Request)
      → IsAccounted s
      → s.deferred ≡ r ∷ rs
      → is_empty s.run_id ≡ true
      → s.entry.attached ≡ true
      → s.entry.peer ≡ false
      → s.close_call ≡ none
      → issue accepts fresh (record s { deferred = rs }) r
        ≡ deliver_run accepts fresh (record s { deferred = rs }) r
  unfolding issue issue_checked issue_admitted starts_run is_deliver is_execute is_close
  issue-deferred s r rs h e i a p c =
      let t = record s { deferred = rs } in
      let d = (subst AllDeferred e h.waiting).0.1 in
      let m = deliver_only r.method d in
      if_false _ _ (open_ r.collect)
      ∙ if_false _ _ (few_calls s r rs h e c)
      ∙ ap (issue_checked accepts fresh t) (as_execute-deliver r m)
      ∙ if_false _ _ (ap (λ x. not (is_ok x)) (ap (admit s.entry) m ∙ admit-deliver s.entry a))
      ∙ if_false _ _ (ap is_close m)
      ∙ if_false _ _ (granted _ _ (run_room s r rs h e))
      ∙ if_false _ _ (ap is_execute m)
      ∙ if_true _ _ (starting d p i)
      ∙ if_false _ _ (ap is_some c)
    where
      open_ : (b : Bool) → (is_some s.close_call && not b) ≡ false
      open_ b = rw c

      granted : (b k : Bool) → k ≡ true → (b && not k) ≡ false
      granted b k q = ground arith

      starting :
          is_deliver r.method ≡ true
          → s.entry.peer ≡ false
          → is_empty s.run_id ≡ true
          → starts_run (record s { deferred = rs }) r ≡ true
      starting d p i = rw (d, p, i)

-- The identifier of the next run.
unfoldable pub next_run : Text → Session → Text
next_run fresh s =
    run_name (if is_empty s.run_generation then fresh else s.run_generation)
      (u64 (s.run_sequence + 1))

-- In `t` the delivery `r` has the next run of `s`, its call awaits the worker's answer, the lane is
-- running, and none but `rs` waits.
pub record IsStarted (fresh : Text) (s : Session) (r : Request) (rs : List Request) (t : Session)
    : Type 0 where
  pub run : t.run_id ≡ next_run fresh s
  pub numbered : t.run_sequence ≡ u64 (s.run_sequence + 1)
  pub waiting : t.deferred ≡ rs
  pub called :
      t.pending
      ≡ s.pending
        ++ (
          s.next_out + 1,
          record r { run_id = next_run fresh s; params = delivery (next_run fresh s) },
        )
          ∷ []
  pub running : t.entry.running ≡ true
  pub answered : t.answers ≡ s.answers
  pub logged : t.logged ≡ s.logged

module _ (accepts : ℕ → Bool) (fresh : Text) where
  -- A lane that has a run starts no delivery.
  start_deferred-idle :
      (n : ℕ) (s : Session) → is_empty s.run_id ≡ false → start_deferred accepts fresh n s ≡ s
  unfolding start_deferred
  start_deferred-idle zero s e = refl
  start_deferred-idle (suc n) s e = by_deferred s.deferred
    where
      by_deferred :
          (ds : List Request)
          → (elim ds [
            | [] ↦ s
            | r ∷ rs ↦
                let t =
                  start_deferred accepts fresh n
                    (issue accepts fresh (record s { deferred = rs }) r) in
                if is_empty s.run_id then t else s
          ])
            ≡ s
      by_deferred [] = refl
      by_deferred (r ∷ rs) = if_false _ _ e

  start_deferred-first :
      (s : Session) (r : Request) (rs : List Request)
      → s.deferred ≡ r ∷ rs
      → is_empty s.run_id ≡ true
      → start_deferred_delivery accepts fresh s
        ≡ start_deferred accepts fresh
            (length rs)
            (issue accepts fresh (record s { deferred = rs }) r)
  unfolding start_deferred_delivery start_deferred
  start_deferred-first s r rs e i =
      ap (λ ds. start_deferred accepts fresh (length {A = Request} ds) (record s { deferred = ds }))
        e
      ∙ if_true _ _ i

  deliver_run-IsStarted :
      (s : Session) (r : Request) (rs : List Request)
      → accepts (s.next_out + 1) ≡ true
      → IsStarted fresh s r rs (deliver_run accepts fresh (record s { deferred = rs }) r)
  unfolding deliver_run write_request reserve_run set_deadline stop_auto_close next_run admitted
  deliver_run-IsStarted s r rs a = subst (IsStarted fresh s r rs) (sym (if_true _ _ a)) (record {
    run = refl;
    numbered = refl;
    waiting = refl;
    called = refl;
    running = ap (λ (e : Entry). e.running) (if_false _ _ (named _ _));
    answered = refl;
    logged = refl;
  })

  -- In an attached lane that is not being closed and runs nothing, whose promises are accounted for and
  -- whose connection takes the call, `startDeferredDelivery` gives the first delivery that waits the
  -- next run: the worker is called with that run's identifier, the lane has this run and is running,
  -- the other deliveries wait on in their order, and no answer is sent and none is logged.
  pub start_deferred_delivery_runs :
      (s : Session) (r : Request) (rs : List Request)
      → IsAccounted s
      → s.deferred ≡ r ∷ rs
      → is_empty s.run_id ≡ true
      → s.entry.attached ≡ true
      → s.entry.peer ≡ false
      → s.close_call ≡ none
      → accepts (s.next_out + 1) ≡ true
      → IsStarted fresh s r rs (start_deferred_delivery accepts fresh s)
  unfolding next_run run_name
  start_deferred_delivery_runs s r rs h e i a p c w =
      let t = deliver_run accepts fresh (record s { deferred = rs }) r in
      let g : IsStarted fresh s r rs t = deliver_run-IsStarted s r rs w in
      subst (IsStarted fresh s r rs)
        (sym (
          start_deferred-first s r rs e i
          ∙ ap (start_deferred accepts fresh (length rs))
              (issue-deferred accepts fresh s r rs h e i a p c)
          ∙ start_deferred-idle (length rs) t (ap is_empty g.run ∙ named _ _)))
        g
