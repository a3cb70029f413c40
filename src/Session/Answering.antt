-- ===== src/Session/Answering.antt =====
-- session.go, lane.go and delivery_queue.go: each request that a session issues is answered or waits for
-- its answer.
use mathlib.Core.Bool.{true≢false}
use sessionbus.Base.{
  Bool, List, Option, Text, [], as_count, false, if_cases, if◌then◌else◌, is_empty, none,
  option_cases, some, sym, text_eq, true, ℕ, ◌++◌, ◌+◌, ◌==◌, ◌||◌, ◌∙◌, ◌∷◌, ◌≡◌,
}
use sessionbus.Protocol.{Code, busy, not_connected}
use sessionbus.Session.Answers.{
  IsCloseCall, IsOpen, Opened, answer_routed-IsOpen, closes, mine, with_call_open, with_close_call,
  with_closing, with_stop,
}
use sessionbus.Session.Capacity.{AllDeferred}
use sessionbus.Session.Closing.{
  begin_close, blocks_close, forgets, hard_stop, record_stop, settle_deferred, write_close,
  write_deferred_close,
}
use sessionbus.Session.Issue.{write_request}
use sessionbus.Session.Reservations.{refuse_run, set_deadline, stop_auto_close}
use sessionbus.Session.Responses.{Pending}
use sessionbus.Session.State.{
  Answer, Entry, Method, Request, Session, admitted, answer_routed, finish_run, is_close,
  message_deliver, other_call, refusal, session_close, turn_ack, turn_execute, turn_interrupt,
  turn_run, turn_start, turn_status, turn_wait,
}

admitted_cases :
    (P : Entry → Type 0) (e : Entry) (m : Method)
    → P e
    → P (record e { running = true })
    → P (record e { claimed = true })
    → P (admitted e m)
unfolding admitted
admitted_cases P e turn_execute h r c = r
admitted_cases P e session_close h r c = c
admitted_cases P e turn_run h r c = h
admitted_cases P e turn_start h r c = h
admitted_cases P e turn_status h r c = h
admitted_cases P e turn_wait h r c = h
admitted_cases P e turn_ack h r c = h
admitted_cases P e turn_interrupt h r c = h
admitted_cases P e message_deliver h r c = h
admitted_cases P e other_call h r c = h

-- What issuing a request relies on: unless it is a close, the lane is not being closed for its channel,
-- and a close is the first thing that happens on its channel.
pub record IsIssuable (k n number : ℕ) (peer : Bool) (close_call : Option Request) (r : Request)
    : Type 0 where
  pub own : mine k r ≡ true → (closes k close_call ≡ false) × (r.destination ≡ number)
  pub shut :
      is_close r.method ≡ true
      → (r.scheduled ≡ false)
        × (r.collect ≡ false)
        × (r.destination ≡ number)
        × (peer ≡ false)
        × ((r.ticket == k) ≡ true → n ≡ 0)

pub finish_run-IsOpen : (k n : ℕ) (s : Session) → IsOpen k n s → IsOpen k n (finish_run s)
unfolding finish_run
finish_run-IsOpen k n s h = if_cases (IsOpen k n) s.entry.attached (λ _. h) (λ _. h)

pub refuse_run-IsOpen :
    (k n : ℕ) (s : Session) (id : Text) → IsOpen k n s → IsOpen k n (refuse_run s id)
unfolding refuse_run set_deadline stop_auto_close finish_run
refuse_run-IsOpen k n s id h =
    if_cases (IsOpen k n) (text_eq s.run_id id)
      (λ _. if_cases (IsOpen k n) s.entry.attached (λ _. h) (λ _. h)) (λ _. h)

pub with_waiting :
    {k n : ℕ} {os : List (ℕ × Answer)} {p : Pending} {ds : List Request} {c : Option Request}
    {number : ℕ} {stopping attached listed closed finished peer committed : Bool}
    (rs : List Request)
    → AllDeferred rs
    → Opened k n os p ds c number stopping attached listed closed finished peer committed
    → Opened k n os p rs c number stopping attached listed closed finished peer committed
with_waiting rs w h = record {
  total = h.total;
  kept = h.kept;
  waiting = w;
  call = h.call;
  present = h.present;
  live = h.live;
  peers = h.peers;
}

-- A delivery that waits has been answered.
pub settle_deferred-keeps :
    (P : Session → Type 0) (code : Code) (rs : List Request) (s : Session)
    → ((t : Session) (os : List Request) → P t → P (record t { logged = os }))
    → ((t : Session) → P t → P (record t { deferred = [] }))
    → AllDeferred rs
    → P s
    → P (settle_deferred code rs s)
unfolding settle_deferred answer_routed
settle_deferred-keeps P code [] s f g w h = g s h
settle_deferred-keeps P code (r ∷ rs) s f g w h =
    settle_deferred-keeps P code rs (answer_routed s r (refusal code)) f g w.1 (
      if_cases P r.scheduled (λ _. f s (s.logged ++ r ∷ []) h)
        (λ e. absurd (true≢false (sym w.0.0 ∙ e))))

module _ (accepts : ℕ → Bool) (k : ℕ) where
  pub write_deferred_close-IsOpen :
      (n : ℕ) (s : Session) → IsOpen k n s → IsOpen k n (write_deferred_close accepts s)
  unfolding write_deferred_close write_close hard_stop record_stop
  write_deferred_close-IsOpen n s h =
      option_cases (IsOpen k n) s.close_call (λ _. h)
        (λ r e.
          if_cases (IsOpen k n) (s.closed || s.stopping) (λ _. h)
            (λ _.
              if_cases (IsOpen k n) (blocks_close s.pending) (λ _. h)
                (λ _.
                  if_cases (IsOpen k n) (accepts (s.next_out + 1))
                    (λ _.
                      let g = with_close_call (s.next_out + 1) r e h in
                      admitted_cases
                        (λ x. IsOpen k n (record s {
                          next_out = s.next_out + 1;
                          entry = x;
                          pending = s.pending ++ (s.next_out + 1, r) ∷ [];
                        }))
                        s.entry r.method g g g)
                    (λ _. with_stop h))))

  pub begin_close-IsOpen :
      (n : ℕ) (s : Session) (r : Request)
      → s.close_call ≡ none
      → s.entry.peer ≡ false
      → IsCloseCall s.entry.number (some r)
      → ((r.ticket == k) ≡ true → n ≡ 0)
      → IsOpen k n s
      → IsOpen k (n + as_count (mine k r)) (begin_close accepts s r)
  unfolding begin_close stop_auto_close
  begin_close-IsOpen n s r e p i z h =
      let u = record s { auto_close = false } in
      let P = λ (t : Session).
        IsOpen k n t
        × (t.close_call ≡ none)
        × (t.entry.peer ≡ false)
        × IsCloseCall t.entry.number (some r) in
      let t = settle_deferred busy s.deferred u in
      let q =
        settle_deferred-keeps P busy s.deferred u (λ t os p. p)
          (λ t p. (with_waiting [] tt p.0, p.1, p.2, p.3)) h.waiting (h, e, p, i) in
      write_deferred_close-IsOpen (n + as_count (mine k r))
        (record t { close_call = some r; close_timer = true; forget = forgets r.params })
        (with_closing r q.1 q.2 q.3 z q.0)

  pub write_request-IsOpen :
      (n : ℕ) (s : Session) (r : Request)
      → (mine k r ≡ true → (closes k s.close_call ≡ false) × (r.destination ≡ s.entry.number))
      → is_close r.method ≡ false
      → IsOpen k n s
      → IsOpen k (n + as_count (mine k r)) (write_request accepts s r)
  unfolding write_request admitted
  write_request-IsOpen n s r o e h =
      if_cases (IsOpen k (n + as_count (mine k r))) (accepts (s.next_out + 1))
        (λ _.
          let g = with_call_open (s.next_out + 1) r o e h in
          if_cases
            (λ x. IsOpen k (n + as_count (mine k r)) (record s {
              next_out = s.next_out + 1;
              entry = x;
              pending = s.pending ++ (s.next_out + 1, r) ∷ [];
            }))
            (is_empty r.run_id) (λ _. g) (λ _. g))
        (λ _.
          let t = record s { next_out = s.next_out + 1 } in
          answer_routed-IsOpen k n (if is_empty r.run_id then t else refuse_run t r.run_id) r
            (refusal not_connected)
            (if_cases (IsOpen k n) (is_empty r.run_id) (λ _. h)
              (λ _. refuse_run-IsOpen k n t r.run_id h)))
