-- ===== src/Hub/Fates.antt =====
-- hub.go: what becomes of each call that is handed to a link.
use mathlib.Core.Bool.{true≢false}
use mathlib.Core.Option.{none-ne-some, some-injective}
use sessionbus.Base.{
  Bool, List, [], ap, arith, as_count, false, if_cases, if◌then◌else◌, inl, inr, ltb, not,
  option_cases, refl, some, subst, sym, true, ℕ, ◌&&◌, ◌++◌, ◌+◌, ◌==◌, ◌||◌, ◌∙◌, ◌∷◌, ◌≡◌, ◌⊎◌,
}
use sessionbus.Hub.Link.{
  Frame, Link, Move, PendingCall, PendingCalls, Reply, Request, answer, answers, asks_roster,
  bad_frame, call_forward, call_lifetime, call_roster, closes, decode_pending_reply, delete_pending,
  end_link, enter, event, fail, find_pending, forward_lost, forward_request, forward_request_bytes,
  forwards, frame_too_big, frames, history, hosts_request, is_full, lifetimes, new_link,
  other_request, owner_end_request, post, receive_frame, receive_request, receive_response,
  registry_closed, request, response, roster_request, send_forward, send_reply, settle_pending,
  settle_queued, step, stops, trace_unsupported,
}

abbrev pub replied : ℕ → List (ℕ × Reply) → ℕ
replied k [] = 0
replied k ((t, r) ∷ rs) = as_count (t == k) + replied k rs

abbrev pub under_way : ℕ → PendingCalls → ℕ
under_way k [] = 0
under_way k ((n, c) ∷ cs) = as_count (c.ticket == k) + under_way k cs

abbrev pub queued : ℕ → List ℕ → ℕ
queued k [] = 0
queued k (t ∷ ts) = as_count (t == k) + queued k ts

-- How many calls with the channel `k` a move hands to the link.
unfoldable pub handed : ℕ → Move → ℕ
handed k (asks_roster t encoded sent) = as_count (t == k)
handed k (lifetimes t encoded sent) = as_count (t == k)
handed k (forwards t completion requires trace encodes targeted sent) = as_count (t == k)
handed k (closes queue) = queued k queue
handed k _ = 0

-- How many the link takes before its loop returns.
unfoldable pub taken : ℕ → Link → List Move → ℕ
unfolding handed step
taken k l [] = 0
taken k l (m ∷ ms) = let rest = taken k (step l m) ms in (if l.ended then 0 else handed k m) + rest

replied-snoc :
    (k : ℕ) (rs : List (ℕ × Reply)) (t : ℕ) (r : Reply)
    → replied k (rs ++ (t, r) ∷ []) ≡ replied k rs + as_count (t == k)
replied-snoc k [] t r = omega arith
replied-snoc k ((u, q) ∷ rs) t r = omega (arith, replied-snoc k rs t r)

under_way-snoc :
    (k : ℕ) (cs : PendingCalls) (n : ℕ) (c : PendingCall)
    → under_way k (cs ++ (n, c) ∷ []) ≡ under_way k cs + as_count (c.ticket == k)
under_way-snoc k [] n c = omega arith
under_way-snoc k ((m, d) ∷ cs) n c = omega (arith, under_way-snoc k cs n c)

under_way-delete :
    (k id : ℕ) (cs : PendingCalls) (c : PendingCall)
    → find_pending id cs ≡ some c
    → under_way k cs ≡ under_way k (delete_pending id cs) + as_count (c.ticket == k)
unfolding find_pending delete_pending
under_way-delete k id [] c e = absurd (none-ne-some c e)
under_way-delete k id ((n, d) ∷ cs) c e = by_test (λ f. under_way-delete k id cs c f) (id == n) e
  where
    by_test :
        (find_pending id cs ≡ some c
          → under_way k cs ≡ under_way k (delete_pending id cs) + as_count (c.ticket == k))
        → (b : Bool) → (if b then some d else find_pending id cs) ≡ some c
        → as_count (d.ticket == k) + under_way k cs
          ≡ under_way k (if b then cs else (n, d) ∷ delete_pending id cs) + as_count (c.ticket == k)
    by_test ih true e = omega (arith, ap (λ x. as_count (x.ticket == k)) (some-injective d c e))
    by_test ih false e = omega (arith, ih e)

-- `n` calls with the channel were answered or are under way, and the loop runs.
abbrev Owes : ℕ → ℕ → Link → Type 0
Owes k n l = (replied k l.replies + under_way k l.pending ≡ n) × (l.ended ≡ false)

-- The loop has returned, and each of the `n` calls was answered.
abbrev Settled : ℕ → ℕ → Link → Type 0
Settled k n l = (replied k l.replies ≡ n) × (l.pending ≡ []) × (l.ended ≡ true)

answered :
    (k n : ℕ) (l : Link) (t : ℕ) (r : Reply)
    → Owes k n l
    → Owes k (n + as_count (t == k)) (answer l t r)
unfolding answer
answered k n l t r h = (omega (arith, h.0, replied-snoc k l.replies t r), h.1)

entered :
    (k n : ℕ) (l : Link) (t : ℕ) (trace : Bool)
    → Owes k n l
    → Owes k (n + as_count (t == k)) (enter l t trace)
unfolding enter
entered k n l t trace h = (
  omega (
    arith,
    h.0,
    under_way-snoc k l.pending (l.next_id + 1) (record { ticket = t; trace = trace }),
  ),
  h.1,
)

call_forward-Owes :
    (k n : ℕ) (l : Link) (t : ℕ) (completion requires trace : Bool) (encodes : Bool → Bool)
    (targeted sent : Bool)
    → Owes k n l
    → Owes k
        (n + as_count (t == k))
        (call_forward l t completion requires trace encodes targeted sent)
unfolding call_forward send_forward fail
call_forward-Owes k n l t completion requires trace encodes targeted sent h =
    let P = Owes k (n + as_count (t == k)) in
    let lost = answered k n l t forward_lost h in
    if_cases P (completion && not l.wake) (λ _. lost)
      (λ _.
        if_cases P (requires && not l.traces) (λ _. answered k n l t trace_unsupported h)
          (λ _.
            if_cases P (l.failed || is_full l) (λ _. if_cases P (is_full l) (λ _. lost) (λ _. lost))
              (λ _.
                if_cases P
                  (not targeted || not (forward_request_bytes encodes (trace && l.traces)).0)
                  (λ _. answered k n (record l { next_id = l.next_id + 1 }) t frame_too_big h)
                  (λ _.
                    if_cases P sent
                      (λ _. entered k n l t (forward_request_bytes encodes (trace && l.traces)).1 h)
                      (λ _.
                        answered k n (record l { next_id = l.next_id + 1; failed = true }) t
                          forward_lost h)))))

receive_frame-Owes : (k n : ℕ) (l : Link) (f : Frame) → Owes k n l → Owes k n (receive_frame l f)
unfolding receive_frame receive_response receive_request fail post answer
receive_frame-Owes k n l bad_frame h = h
receive_frame-Owes k n l (response id f) h =
    option_cases (Owes k n) (find_pending id l.pending) (λ _. h)
      (λ c e.
        option_cases (Owes k n) (decode_pending_reply c f) (λ _. h)
          (λ r _. (
            omega (
              arith,
              h.0,
              replied-snoc k l.replies c.ticket r,
              under_way-delete k id l.pending c e,
            ),
            h.1,
          )))
receive_frame-Owes k n l (request id r) h =
    if_cases (Owes k n) (ltb l.last_in id) (λ _. by_request r) (λ _. h)
  where
    by_request : (r : Request) → Owes k n (receive_request (record l { last_in = id }) id r)
    by_request (roster_request v) = if_cases (Owes k n) (not l.rosters || not v) (λ _. h) (λ _. h)
    by_request (hosts_request v) = if_cases (Owes k n) v (λ _. h) (λ _. h)
    by_request (owner_end_request v) = if_cases (Owes k n) v (λ _. h) (λ _. h)
    by_request (forward_request v) = if_cases (Owes k n) v (λ _. h) (λ _. h)
    by_request other_request = h

settle_pending-answers :
    (k n : ℕ) (cs : PendingCalls) (l : Link)
    → replied k l.replies + under_way k cs ≡ n
    → (replied k (settle_pending cs l).replies ≡ n) × ((settle_pending cs l).pending ≡ [])
unfolding settle_pending answer
settle_pending-answers k n [] l e = (omega (arith, e), refl)
settle_pending-answers k n ((i, c) ∷ cs) l e =
    settle_pending-answers k n cs (answer l c.ticket forward_lost)
      (omega (arith, e, replied-snoc k l.replies c.ticket forward_lost))

settle_queued-answers :
    (k n : ℕ) (ts : List ℕ) (l : Link)
    → replied k l.replies ≡ n
    → l.pending ≡ []
    → (replied k (settle_queued ts l).replies ≡ n + queued k ts)
      × ((settle_queued ts l).pending ≡ [])
unfolding settle_queued answer
settle_queued-answers k n [] l e p = (omega (arith, e), p)
settle_queued-answers k n (t ∷ ts) l e p =
    let h =
      settle_queued-answers k (n + as_count (t == k)) ts (answer l t forward_lost)
        (omega (arith, e, replied-snoc k l.replies t forward_lost)) p in
    (omega (arith, h.0), h.1)

Fate : ℕ → ℕ → Link → Type 0
Fate k n l = Owes k n l ⊎ Settled k n l

event-Fate : (k n : ℕ) (l : Link) (m : Move) → Owes k n l → Fate k (n + handed k m) (event l m)
unfolding event handed call_roster call_lifetime send_reply fail end_link post Fate
event-Fate k n l stops h = inl (omega (arith, h.0), h.1)
event-Fate k n l (asks_roster t encoded sent) h = inl (
    if_cases (Owes k (n + as_count (t == k))) (l.failed || is_full l)
      (λ _. answered k n l t forward_lost h)
      (λ _.
        if_cases (Owes k (n + as_count (t == k))) (encoded && sent) (λ _. entered k n l t false h)
          (λ _. answered k n (record l { next_id = l.next_id + 1 }) t forward_lost h)))
event-Fate k n l (lifetimes t encoded sent) h = inl (
    if_cases (Owes k (n + as_count (t == k))) (l.failed || is_full l)
      (λ _. answered k n l t forward_lost h)
      (λ _.
        if_cases (Owes k (n + as_count (t == k))) (encoded && sent) (λ _. entered k n l t false h)
          (λ _. answered k n (record l { next_id = l.next_id + 1 }) t forward_lost h)))
event-Fate k n l (forwards t completion requires trace encodes targeted sent) h =
    inl (call_forward-Owes k n l t completion requires trace encodes targeted sent h)
event-Fate k n l (answers encoded sent) h = inl (
    if_cases (Owes k (n + 0)) (not l.failed && (not encoded || not sent))
      (λ _. (omega (arith, h.0), h.1)) (λ _. (omega (arith, h.0), h.1)))
event-Fate k n l (frames f) h =
    let g = if_cases (Owes k n) l.failed (λ _. h) (λ _. receive_frame-Owes k n l f h) in
    inl (omega (arith, g.0), g.1)
event-Fate k n l (closes queue) h =
    let t = record l { posted = l.posted ++ registry_closed ∷ [] } in
    let g = settle_pending-answers k n l.pending t h.0 in
    let d = settle_queued-answers k n queue (settle_pending l.pending t) g.0 g.1 in
    inr (d.0, d.1, refl)

step-Fate :
    (k n : ℕ) (l : Link) (m : Move)
    → Fate k n l
    → Fate k (n + (if l.ended then 0 else handed k m)) (step l m)
unfolding step Fate
step-Fate k n l m h = by_ended l.ended refl h
  where
    by_ended :
        (b : Bool)
        → l.ended ≡ b
        → Fate k n l
        → Fate k (n + (if b then 0 else handed k m)) (if b then l else event l m)
    by_ended true e (inl h) = absurd (true≢false (sym e ∙ h.1))
    by_ended true e (inr h) = inr (omega (arith, h.0), h.1, h.2)
    by_ended false e (inl h) = event-Fate k n l m h
    by_ended false e (inr h) = absurd (true≢false (sym h.2 ∙ e))

history-Fate :
    (k n : ℕ) (l : Link) (ms : List Move) → Fate k n l → Fate k (n + taken k l ms) (history l ms)
unfolding history taken
history-Fate k n l [] h = subst (λ x. Fate k x l) (omega arith) h
history-Fate k n l (m ∷ ms) h =
    let t = step l m in
    subst (λ x. Fate k x (history t ms)) (omega arith)
      (history-Fate k (n + (if l.ended then 0 else handed k m)) t ms (step-Fate k n l m h))

-- The answers and the calls under way are as many as the calls taken, and none is under way once the
-- loop has returned.
pub record IsFair (k n : ℕ) (l : Link) : Type 0 where
  pub exact : replied k l.replies + under_way k l.pending ≡ n
  pub settled : l.ended ≡ true → l.pending ≡ []

-- Whatever a new link goes through: for every channel, the answers sent on it and the calls under way
-- with it are as many as the calls with it that the link took before its loop returned, those still in
-- its queue at the end included; and no call is under way once the loop has returned.
pub history-IsFair :
    (wake traces rosters accepted : Bool) (k : ℕ) (ms : List Move)
    → let l = new_link wake traces rosters accepted in IsFair k (taken k l ms) (history l ms)
unfolding new_link Fate
history-IsFair wake traces rosters accepted k ms =
    by_fate (history l ms) (omega arith) (history-Fate k 0 l ms (inl (refl, refl)))
  where
    l : Link
    l = new_link wake traces rosters accepted

    by_fate : {n m : ℕ} (t : Link) → n ≡ m → Fate k n t → IsFair k m t
    by_fate t e (inl h) = record {
      exact = h.0 ∙ e;
      settled = λ x. absurd (true≢false (sym x ∙ h.1));
    }
    by_fate t e (inr h) = record {
      exact = ap (λ p. replied k t.replies + under_way k p) h.1 ∙ omega (arith, h.0, e);
      settled = λ _. h.1;
    }
