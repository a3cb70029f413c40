-- ===== src/Session/Replies.antt =====
-- session.go and lane.go: the response to a call answers its request once, or leaves it waiting.
use mathlib.Core.Bool.{false≢true, true≢false}
use sessionbus.Base.{
  ==_iff, Bool, List, Option, Text, [], ap, arith, as_count, false, if_cases, if◌then◌else◌,
  is_empty, not, option_cases, refl, sym, text_eq, true, ℕ, ◌&&◌, ◌++◌, ◌+◌, ◌==◌, ◌||◌, ◌∙◌, ◌∷◌,
  ◌≡◌,
}
use sessionbus.Protocol.{Code, RunRef, busy, not_connected}
use sessionbus.Runs.RunId.{cut, parse_uint}
use sessionbus.Session.Answering.{
  IsIssuable, refuse_run-IsOpen, with_waiting, write_deferred_close-IsOpen,
}
use sessionbus.Session.Answers.{
  AllKept, IsKept, IsOpen, Opened, answer_routed-IsOpen, closes, count, find_request-IsKept, mine,
  opens, replies, with_stop, with_total,
}
use sessionbus.Session.Capacity.{AllDeferred-snoc, IsDeferred}
use sessionbus.Session.Closing.{orderly_stop, record_stop}
use sessionbus.Session.Issuing.{issue-IsOpen, start_deferred_delivery-IsOpen}
use sessionbus.Session.Reservations.{
  acknowledged_by, has_run_capacity, record_acknowledgment, refuse_run,
}
use sessionbus.Session.Responses.{
  Pending, Response, acknowledged_run, answered, defer_delivery, delete_request, error_response,
  executed, find_request, finish_close_response, hang_up, invalid_response, is_internal,
  other_response, receive_error, receive_response, receive_result, received, ref_response, retain,
  retains,
}
use sessionbus.Session.State.{
  Answer, Params, Request, Session, answer_routed, closing, current, delivery, execution, input,
  is_ack, is_close, is_execute, opaque, queued, reading, reference, refusal, result, turn_wait,
}

-- A request that is no close, and whose answer is still owed.
abbrev pub IsOwed : ℕ → ℕ → Option Request → Request → Type 0
IsOwed k number c r =
    (is_close r.method ≡ false)
    × (mine k r ≡ true → (closes k c ≡ false) × (r.destination ≡ number))

owed-IsIssuable :
    (k n number : ℕ) (b : Bool) (c : Option Request) (r : Request)
    → IsOwed k number c r
    → IsIssuable k n number b c r
owed-IsIssuable k n number b c r w = record {
  own = w.1;
  shut = λ e. absurd (true≢false (sym e ∙ w.0));
}

acknowledged_run-IsOpen :
    (k n : ℕ) (s : Session) (r : Request) → IsOpen k n s → IsOpen k n (acknowledged_run s r)
unfolding acknowledged_run record_acknowledgment
acknowledged_run-IsOpen k n s r h = by_params r.params
  where
    by_params :
        (p : Params) → IsOpen k n (elim p [ reference ref ↦ record_acknowledgment s ref | _ ↦ s ])
    by_params (reference ref) =
        option_cases (IsOpen k n)
          (acknowledged_by s ref (cut ref.run_id) (parse_uint (cut ref.run_id).1)) (λ _. h)
          (λ _ _. h)
    by_params (input t) = h
    by_params (execution a b c) = h
    by_params (reading a) = h
    by_params (delivery a) = h
    by_params (closing a) = h
    by_params opaque = h

defer_delivery-IsOpen :
    (k n : ℕ) (s : Session) (r : Request)
    → IsDeferred (record r { scheduled = true })
    → IsOpen k n s
    → IsOpen k (n + as_count (mine k r)) (defer_delivery s r)
unfolding defer_delivery
defer_delivery-IsOpen k n s r d h =
    let t = answer_routed s r queued in
    let g = answer_routed-IsOpen k n s r queued h in
    with_waiting (t.deferred ++ record r { scheduled = true } ∷ [])
      (AllDeferred-snoc t.deferred (record r { scheduled = true }) g.waiting d) g

without_request :
    {k n : ℕ} {os : List (ℕ × Answer)} {p q : Pending} {ds : List Request} {c : Option Request}
    {number : ℕ} {stopping attached listed closed finished peer committed : Bool}
    → AllKept k c number q
    → Opened k n os p ds c number stopping attached listed closed finished peer committed
    → Opened k
        (replies k os + opens (closes k c) (count k q))
        os
        q
        ds
        c
        number
        stopping
        attached
        listed
        closed
        finished
        peer
        committed
without_request e h = record {
  total = refl;
  kept = e;
  waiting = h.waiting;
  call = h.call;
  present = h.present;
  live = h.live;
  peers = h.peers;
}

module _ (accepts : ℕ → Bool) (fresh : Text) (k : ℕ) where
  retain-IsOpen :
      (n : ℕ) (s : Session) (r : Request) (c : Code)
      → retains s r c ≡ true
      → IsOwed k s.entry.number s.close_call r
      → IsOpen k n s
      → IsOpen k (n + as_count (mine k r)) (retain accepts fresh s r)
  unfolding retain retains
  retain-IsOpen n s r c e w h =
      if_cases (IsOpen k (n + as_count (mine k r))) (is_empty s.run_id)
        (λ _.
          issue-IsOpen accepts k fresh n s r
            (owed-IsIssuable k n s.entry.number s.entry.peer s.close_call r w) h)
        (λ _.
          if_cases (IsOpen k (n + as_count (mine k r))) (not (has_run_capacity s))
            (λ _. answer_routed-IsOpen k n s r (refusal busy) h)
            (λ _. defer_delivery-IsOpen k n s r (refl, ground arith, ground arith) h))

  receive_error-IsOpen :
      (n : ℕ) (s : Session) (r : Request) (c : Code)
      → IsOwed k s.entry.number s.close_call r
      → IsOpen k n s
      → IsOpen k (n + as_count (mine k r)) (receive_error accepts fresh s r c)
  unfolding receive_error
  receive_error-IsOpen n s r c w h =
      let refused = not (is_empty r.run_id) && (is_execute r.method || not (is_internal c)) in
      let t = if refused then refuse_run s r.run_id else s in
      if_cases (IsOpen k (n + as_count (mine k r))) (retains s r c)
        (λ e. retain-IsOpen n s r c e w h)
        (λ _.
          start_deferred_delivery-IsOpen accepts k fresh (n + as_count (mine k r))
            (answer_routed t r (refusal c))
            (answer_routed-IsOpen k n t r (refusal c)
              (if_cases (IsOpen k n) refused (λ _. refuse_run-IsOpen k n s r.run_id h) (λ _. h))))

  executed-IsOpen :
      (n : ℕ) (s : Session) (r : Request) (ref : RunRef)
      → IsOwed k s.entry.number s.close_call r
      → IsOpen k n s
      → IsOpen k (n + as_count (mine k r)) (executed accepts fresh s r ref)
  unfolding executed hang_up is_close
  executed-IsOpen n s r ref w h =
      if_cases (IsOpen k (n + as_count (mine k r)))
        (not (text_eq ref.run_id r.run_id) || not (text_eq ref.session_id s.entry.session_id))
        (λ _.
          answer_routed-IsOpen k n (record s { wire_closed = true }) r (refusal not_connected) h)
        (λ _.
          if_cases (IsOpen k (n + as_count (mine k r))) r.collect
            (λ _.
              let q = record r {
                method = turn_wait;
                params = reading (record { session_id = ref.session_id; run_id = ref.run_id });
                run_id = [];
              } in
              issue-IsOpen accepts k fresh n s q
                (owed-IsIssuable k n s.entry.number s.entry.peer s.close_call q (refl, w.1)) h)
            (λ _. answer_routed-IsOpen k n s r result h))

  -- The call of a close is answered when the lane has ended, any other by its response.
  answered-IsOpen :
      (n : ℕ) (s : Session) (r : Request) (f : Response)
      → s.stopping ≡ false
      → IsKept k s.close_call s.entry.number r
      → IsOpen k n s
      → IsOpen k (n + as_count (mine k r && not (is_close r.method))) (answered accepts fresh s r f)
  unfolding answered finish_close_response hang_up orderly_stop record_stop receive_result current
  answered-IsOpen n s r f p e h =
      if_cases P (not (s.entry.number == r.destination) || not (current s r.destination))
        (λ m. with_total (mismatch m) (answer_routed-IsOpen k n s r (refusal not_connected) h))
        (λ _.
          if_cases P (is_close r.method) (λ c. with_total (closing_call c) (closed f))
            (λ c. with_total (owed c) (open_ (c, λ m. (sym ((e m).0) ∙ c, (e m).1)) f)))
    where
      P : Session → Type 0
      P = IsOpen k (n + as_count (mine k r && not (is_close r.method)))

      mismatch :
          (not (s.entry.number == r.destination) || not (current s r.destination)) ≡ true
          → n + as_count (mine k r) ≡ n + as_count (mine k r && not (is_close r.method))
      mismatch m = by_mine (mine k r) refl
        where
          no_peer :
              (b : Bool) → s.entry.peer ≡ b → true ≡ closes k s.close_call → s.entry.peer ≡ false
          no_peer false q c = q
          no_peer true q c = absurd (true≢false (c ∙ ap (closes k) ((h.peers q).0)))

          matches :
              (x l a : Bool) → x ≡ true → l ≡ true → a ≡ true → (not x || not (l && x && a)) ≡ false
          matches x l a e f g = rw (e, f, g)

          -- A close is under way in a lane only, whose entry is still the session's own.
          by_close :
              (b : Bool) → is_close r.method ≡ b → mine k r ≡ true → n + 1 ≡ n + as_count (not b)
          by_close false c q = refl
          by_close true c q =
              let lane = no_peer s.entry.peer refl (sym c ∙ (e q).0) in
              absurd (
                true≢false (
                  sym m
                  ∙ matches (s.entry.number == r.destination) s.entry.listed s.entry.attached
                      ((==_iff s.entry.number r.destination).1 (sym ((e q).1)))
                      ((h.present p lane).1) ((h.present p lane).0)))

          by_mine :
              (b : Bool)
              → mine k r ≡ b
              → n + as_count b ≡ n + as_count (b && not (is_close r.method))
          by_mine false q = refl
          by_mine true q = by_close (is_close r.method) refl q

      closing_call :
          is_close r.method ≡ true → n ≡ n + as_count (mine k r && not (is_close r.method))
      closing_call c = unmine (mine k r) (is_close r.method) c
        where
          unmine : (a b : Bool) → b ≡ true → n ≡ n + as_count (a && not b)
          unmine true true e = omega arith
          unmine false true e = omega arith
          unmine a false e = absurd (false≢true e)

      owed :
          is_close r.method ≡ false
          → n + as_count (mine k r) ≡ n + as_count (mine k r && not (is_close r.method))
      owed c = still (mine k r) (is_close r.method) c
        where
          still : (a b : Bool) → b ≡ false → n + as_count a ≡ n + as_count (a && not b)
          still true false e = refl
          still false false e = refl
          still a true e = absurd (true≢false e)

      stopped : IsOpen k n (orderly_stop s)
      stopped =
          if_cases (IsOpen k n) (not s.process_exited && not s.close_timer) (λ _. with_stop h)
            (λ _. with_stop h)

      closed : (f : Response) → IsOpen k n (finish_close_response s f)
      closed (error_response c) = h
      closed invalid_response = h
      closed (ref_response ref) = stopped
      closed other_response = stopped

      result_IsOpen :
          IsOpen k
            (n + as_count (mine k r))
            (answer_routed (if is_ack r.method then acknowledged_run s r else s) r result)
      result_IsOpen =
          answer_routed-IsOpen k n (if is_ack r.method then acknowledged_run s r else s) r result (
            if_cases (IsOpen k n) (is_ack r.method) (λ _. acknowledged_run-IsOpen k n s r h)
              (λ _. h))

      open_ :
          IsOwed k s.entry.number s.close_call r
          → (f : Response)
          → IsOpen k (n + as_count (mine k r)) (elim f [
            | error_response c ↦ receive_error accepts fresh s r c
            | invalid_response ↦ answer_routed (hang_up s) r (refusal not_connected)
            | other ↦ receive_result accepts fresh s r other
          ])
      open_ w (error_response c) = receive_error-IsOpen n s r c w h
      open_ w invalid_response = answer_routed-IsOpen k n (hang_up s) r (refusal not_connected) h
      open_ w (ref_response ref) =
          if_cases (IsOpen k (n + as_count (mine k r))) (is_execute r.method)
            (λ _. executed-IsOpen n s r ref w h) (λ _. result_IsOpen)
      open_ w other_response = result_IsOpen

  received-IsOpen :
      (n : ℕ) (s : Session) (r : Request) (f : Response)
      → s.stopping ≡ false
      → IsKept k s.close_call s.entry.number r
      → IsOpen k n s
      → IsOpen k (n + as_count (mine k r && not (is_close r.method))) (received accepts fresh s r f)
  unfolding received
  received-IsOpen n s r f p e h =
      let m = n + as_count (mine k r && not (is_close r.method)) in
      let g = answered-IsOpen n s r f p e h in
      if_cases (IsOpen k m) (is_execute r.method && r.collect)
        (λ _. write_deferred_close-IsOpen accepts k m (answered accepts fresh s r f) g) (λ _. g)

  -- A response changes nothing about how many answers on a channel were sent or are owed.
  pub receive_response-IsOpen :
      (n : ℕ) (s : Session) (id : ℕ) (f : Response)
      → s.stopping ≡ false
      → IsOpen k n s
      → IsOpen k n (receive_response accepts fresh s id f)
  unfolding receive_response hang_up
  receive_response-IsOpen n s id f p h =
      option_cases (IsOpen k n) (find_request id s.pending) (λ _. with_stop h)
        (λ r e.
          let t = record s { pending = delete_request id s.pending } in
          let q = find_request-IsKept k s.close_call s.entry.number id s.pending r e h.kept in
          let b = closes k s.close_call in
          let x = replies k s.answers + opens b (count k (delete_request id s.pending)) in
          with_total
            (taken b (mine k r) (is_close r.method) (λ m. (q.0 m).0) (replies k s.answers)
                (count k (delete_request id s.pending))
              ∙ ap (λ y. replies k s.answers + opens b y) (sym q.2)
              ∙ h.total)
            (received-IsOpen x t r f p q.0 (without_request q.1 h)))
    where
      taken :
          (b m c : Bool)
          → (m ≡ true → c ≡ b)
          → (x y : ℕ) → x + opens b y + as_count (m && not c) ≡ x + opens b (y + as_count m)
      taken true true c e x y = ap (λ z. x + 1 + as_count (not z)) (e refl) ∙ omega arith
      taken false true c e x y = ap (λ z. x + y + as_count (not z)) (e refl) ∙ omega arith
      taken true false c e x y = omega arith
      taken false false c e x y = omega arith
