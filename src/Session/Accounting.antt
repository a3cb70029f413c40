-- ===== src/Session/Accounting.antt =====
-- session.go, policy.go and lane.go: each operation of a session keeps its promises accounted for.
use mathlib.Core.Option.{none-ne-some}
use sessionbus.Base.{
  Bool, List, Text, [], ap, arith, false, if_cases, inl, inr, is_empty, is_some, length, ltb, none,
  not, option_cases, refl, some, sym, text_eq, text_eq_iff, true, u64, ℕ, ◌&&◌, ◌+◌, ◌<◌, ◌||◌, ◌∙◌,
  ◌∷◌, ◌≡◌, ◌≤◌, ◌⊎◌,
}
use sessionbus.Protocol.{Code, busy, max_operations, not_connected}
use sessionbus.Runs.RunId.{run_name}
use sessionbus.Session.Capacity.{
  IsAccounted, answer_routed-IsAccounted, finish_run-IsAccounted, promised, while_closing,
  with_call, with_refused, with_run, without_deferred,
}
use sessionbus.Session.Closing.{
  begin_close, blocks_close, forgets, hard_stop, record_stop, settle_deferred, write_close,
  write_deferred_close,
}
use sessionbus.Session.Issue.{
  addressed, deliver_run, execute_run, input_text, issue_admitted, starts_run, write_request,
}
use sessionbus.Session.Reservations.{
  has_run_capacity, outstanding, refuse_run, reserve_run, set_deadline, stop_auto_close,
}
use sessionbus.Session.State.{Request, Session, delivery, execution, is_execute, refusal}

-- A call may be added, or the lane is being closed.
abbrev pub HasRoom : Session → Type 0
HasRoom s = s.close_call ≡ none → length s.pending + length s.deferred < max_operations

pub has_run_capacity_lem :
    (s : Session)
    → IsAccounted s
    → has_run_capacity s ≡ true
    → promised s.run_sequence s.acknowledged + length s.deferred < max_operations
unfolding has_run_capacity outstanding
has_run_capacity_lem s h e = less _ (length s.deferred) h.bound e
  where
    less : (x y : ℕ) → u64 x + y ≤ 256 → ltb (u64 (u64 x + y)) 256 ≡ true → u64 x + y < 256
    less x y l e = ground arith

pub named : (g : Text) (n : ℕ) → is_empty (run_name g n) ≡ false
unfolding run_name
named [] n = refl
named (c ∷ cs) n = refl

pub refuse_run-IsAccounted :
    (s : Session) (id : Text) → is_empty id ≡ false → IsAccounted s → IsAccounted (refuse_run s id)
unfolding refuse_run set_deadline stop_auto_close
refuse_run-IsAccounted s id e h =
    if_cases IsAccounted (text_eq s.run_id id)
      (λ p.
        finish_run-IsAccounted _ (with_refused (ap is_empty ((text_eq_iff s.run_id id).0 p) ∙ e) h))
      (λ _. h)

pub settle_deferred-IsAccounted :
    (code : Code) (rs : List Request) (s : Session)
    → IsAccounted s
    → IsAccounted (settle_deferred code rs s)
unfolding settle_deferred
settle_deferred-IsAccounted code [] s h = without_deferred h
settle_deferred-IsAccounted code (r ∷ rs) s h =
    settle_deferred-IsAccounted code rs _ (answer_routed-IsAccounted s r (refusal code) h)

module _ (accepts : ℕ → Bool) where
  pub write_deferred_close-IsAccounted :
      (s : Session) → IsAccounted s → IsAccounted (write_deferred_close accepts s)
  unfolding write_deferred_close write_close hard_stop record_stop
  write_deferred_close-IsAccounted s h =
      option_cases IsAccounted s.close_call (λ _. h)
        (λ r e.
          if_cases IsAccounted (s.closed || s.stopping) (λ _. h)
            (λ _.
              if_cases IsAccounted (blocks_close s.pending) (λ _. h)
                (λ _.
                  if_cases IsAccounted (accepts (s.next_out + 1))
                    (λ _.
                      with_call (s.next_out + 1, r) (λ n. absurd (none-ne-some r (sym n ∙ e))) h)
                    (λ _. h))))

  pub begin_close-IsAccounted :
      (s : Session) (r : Request) → IsAccounted s → IsAccounted (begin_close accepts s r)
  unfolding begin_close stop_auto_close
  begin_close-IsAccounted s r h =
      let u = record s { auto_close = false } in
      let t = settle_deferred busy s.deferred u in
      write_deferred_close-IsAccounted
        (record t { close_call = some r; close_timer = true; forget = forgets r.params })
        (while_closing {r = r} (settle_deferred-IsAccounted busy s.deferred u h))

  write_request-IsAccounted :
      (s : Session) (r : Request)
      → HasRoom s
      → IsAccounted s
      → IsAccounted (write_request accepts s r)
  unfolding write_request
  write_request-IsAccounted s r l h =
      if_cases IsAccounted (accepts (s.next_out + 1)) (λ _. with_call (s.next_out + 1, r) l h)
        (λ _. answer_routed-IsAccounted _ r (refusal not_connected) (
          if_cases IsAccounted (is_empty r.run_id) (λ _. h)
            (λ e. refuse_run-IsAccounted (record s { next_out = s.next_out + 1 }) r.run_id e h)))

  module _ (fresh : Text) where
    reserve_run-IsAccounted :
        (s : Session)
        → promised s.run_sequence s.acknowledged + length s.deferred < max_operations
        → IsAccounted s
        → IsAccounted (reserve_run fresh s)
    unfolding reserve_run set_deadline stop_auto_close
    reserve_run-IsAccounted s l h = with_run l h

    execute_run-IsAccounted :
        (s : Session) (r : Request)
        → promised s.run_sequence s.acknowledged + length s.deferred < max_operations
        → HasRoom s
        → IsAccounted s
        → IsAccounted (execute_run accepts fresh s r)
    unfolding execute_run reserve_run set_deadline stop_auto_close
    execute_run-IsAccounted s r c l h =
        let t = reserve_run fresh s in
        write_request-IsAccounted t
          (record r {
            run_id = t.run_id;
            params = execution t.entry.session_id t.run_id (input_text r.params);
          })
          l (reserve_run-IsAccounted s c h)

    deliver_run-IsAccounted :
        (s : Session) (r : Request)
        → promised s.run_sequence s.acknowledged + length s.deferred < max_operations
        → HasRoom s
        → IsAccounted s
        → IsAccounted (deliver_run accepts fresh s r)
    unfolding deliver_run reserve_run set_deadline stop_auto_close
    deliver_run-IsAccounted s r c l h =
        let t = reserve_run fresh s in
        write_request-IsAccounted
          (record t { run_from_trace = r.trace_copy; run_from_completion = r.completion })
          (record r { run_id = t.run_id; params = delivery t.run_id }) l
          (reserve_run-IsAccounted s c h)

    pub issue_admitted-IsAccounted :
        (s : Session) (r : Request)
        → HasRoom s
        → IsAccounted s
        → IsAccounted (issue_admitted accepts fresh s r)
    unfolding issue_admitted
    issue_admitted-IsAccounted s r l h =
        if_cases IsAccounted ((is_execute r.method || starts_run s r) && not (has_run_capacity s))
          (λ _. answer_routed-IsAccounted s r (refusal busy) h)
          (λ e.
            if_cases IsAccounted (is_execute r.method)
              (λ p. execute_run-IsAccounted s r (room e (inl p)) l h)
              (λ _.
                if_cases IsAccounted (starts_run s r)
                  (λ p.
                    if_cases IsAccounted (is_some s.close_call)
                      (λ _. answer_routed-IsAccounted s r (refusal busy) h)
                      (λ _. deliver_run-IsAccounted s r (room e (inr p)) l h))
                  (λ _. write_request-IsAccounted s (addressed s r) l h)))
      where
        has_capacity :
            (a b c : Bool) → ((a || b) && not c) ≡ false → (a ≡ true) ⊎ (b ≡ true) → c ≡ true
        has_capacity a b c e p = ground arith

        room :
            ((is_execute r.method || starts_run s r) && not (has_run_capacity s)) ≡ false
            → (is_execute r.method ≡ true) ⊎ (starts_run s r ≡ true)
            → promised s.run_sequence s.acknowledged + length s.deferred < max_operations
        room e p =
            has_run_capacity_lem s h
              (has_capacity (is_execute r.method) (starts_run s r) (has_run_capacity s) e p)
