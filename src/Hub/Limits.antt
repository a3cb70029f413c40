-- ===== src/Hub/Limits.antt =====
-- hub.go: the bounds of a link, and what a link that has failed no longer does.
use sessionbus.Base.{
  Bool, List, [], arith, false, if_cases, leb, length, length-append, ltb, not, option_cases, ℕ,
  ◌&&◌, ◌++◌, ◌+◌, ◌<◌, ◌==◌, ◌||◌, ◌∷◌, ◌≡◌, ◌≤◌,
}
use sessionbus.Hub.Link.{
  Frame, Link, Move, PendingCall, PendingCalls, Request, answer, answers, asks_roster, bad_frame,
  call_forward, call_lifetime, call_roster, closes, decode_pending_reply, delete_pending, end_link,
  enter, event, fail, find_pending, forward_lost, forward_request, forward_request_bytes, forwards,
  frames, history, hosts_request, is_full, lifetimes, max_pending_forwarded_per_host, new_link,
  other_request, owner_end_request, post, receive_frame, receive_request, receive_response,
  registry_closed, request, response, roster_request, send_forward, send_reply, settle_pending,
  settle_queued, step, stops,
}

-- The calls under way are at most 256, each under an identifier that is not above `next_id`.
abbrev pub AllBelow : ℕ → PendingCalls → Type 0
AllBelow n [] = Unit {0}
AllBelow n ((i, c) ∷ cs) = (i ≤ n) × AllBelow n cs

pub record IsLimited (l : Link) : Type 0 where
  pub few : length l.pending ≤ max_pending_forwarded_per_host
  pub issued : AllBelow l.next_id l.pending

abbrev Limited : PendingCalls → ℕ → Type 0
Limited cs n = (length cs ≤ max_pending_forwarded_per_host) × AllBelow n cs

AllBelow-weaken : (n m : ℕ) (cs : PendingCalls) → n ≤ m → AllBelow n cs → AllBelow m cs
AllBelow-weaken n m [] l h = tt
AllBelow-weaken n m ((i, c) ∷ cs) l h = (omega (arith, l, h.0), AllBelow-weaken n m cs l h.1)

AllBelow-snoc :
    (n i : ℕ) (c : PendingCall) (cs : PendingCalls)
    → i ≤ n
    → AllBelow n cs
    → AllBelow n (cs ++ (i, c) ∷ [])
AllBelow-snoc n i c [] l h = (l, tt)
AllBelow-snoc n i c ((j, d) ∷ cs) l h = (h.0, AllBelow-snoc n i c cs l h.1)

AllBelow-delete : (n id : ℕ) (cs : PendingCalls) → AllBelow n cs → AllBelow n (delete_pending id cs)
unfolding delete_pending
AllBelow-delete n id [] h = tt
AllBelow-delete n id ((i, c) ∷ cs) h =
    if_cases (AllBelow n) (id == i) (λ _. h.1) (λ _. (h.0, AllBelow-delete n id cs h.1))

length-delete_pending : (id : ℕ) (cs : PendingCalls) → length (delete_pending id cs) ≤ length cs
unfolding delete_pending
length-delete_pending id [] = omega arith
length-delete_pending id ((i, c) ∷ cs) = ground (arith, length-delete_pending id cs)

enter-Limited :
    (l : Link) (t : ℕ) (trace : Bool)
    → is_full l ≡ false
    → Limited l.pending l.next_id
    → Limited
        (l.pending ++ (l.next_id + 1, record { ticket = t; trace = trace }) ∷ [])
        (l.next_id + 1)
unfolding is_full
enter-Limited l t trace e h =
    let c : PendingCall = record { ticket = t; trace = trace } in
    (
      omega (arith, less (length l.pending) e, length-append l.pending ((l.next_id + 1, c) ∷ [])),
      AllBelow-snoc (l.next_id + 1) (l.next_id + 1) c l.pending (omega arith)
          (AllBelow-weaken l.next_id (l.next_id + 1) l.pending (omega arith) h.1),
    )
  where
    less : (n : ℕ) → leb 256 n ≡ false → n < 256
    less n e = ground arith

-- An identifier that is not used stays free.
skipped : (cs : PendingCalls) (n : ℕ) → Limited cs n → Limited cs (n + 1)
skipped cs n h = (h.0, AllBelow-weaken n (n + 1) cs (omega arith) h.1)

abbrev Lim : Link → Type 0
Lim l = Limited l.pending l.next_id

not_full : (a b : Bool) → (a || b) ≡ false → b ≡ false
not_full a b e = ground arith

call_forward-Lim :
    (l : Link) (t : ℕ) (completion requires trace : Bool) (encodes : Bool → Bool)
    (targeted sent : Bool)
    → Lim l
    → Lim (call_forward l t completion requires trace encodes targeted sent)
unfolding call_forward send_forward fail answer enter
call_forward-Lim l t completion requires trace encodes targeted sent h =
    if_cases Lim (completion && not l.wake) (λ _. h)
      (λ _.
        if_cases Lim (requires && not l.traces) (λ _. h)
          (λ _.
            if_cases Lim (l.failed || is_full l) (λ _. if_cases Lim (is_full l) (λ _. h) (λ _. h))
              (λ e.
                if_cases Lim
                  (not targeted || not (forward_request_bytes encodes (trace && l.traces)).0)
                  (λ _. skipped l.pending l.next_id h)
                  (λ _.
                    if_cases Lim sent
                      (λ _.
                        enter-Limited l t (forward_request_bytes encodes (trace && l.traces)).1
                          (not_full l.failed (is_full l) e) h)
                      (λ _. skipped l.pending l.next_id h)))))

receive_frame-Lim : (l : Link) (f : Frame) → Lim l → Lim (receive_frame l f)
unfolding receive_frame receive_response receive_request fail post answer
receive_frame-Lim l bad_frame h = h
receive_frame-Lim l (response id f) h =
    option_cases Lim (find_pending id l.pending) (λ _. h)
      (λ c e.
        option_cases Lim (decode_pending_reply c f) (λ _. h)
          (λ r _. (
            omega (arith, h.0, length-delete_pending id l.pending),
            AllBelow-delete l.next_id id l.pending h.1,
          )))
receive_frame-Lim l (request id r) h = if_cases Lim (ltb l.last_in id) (λ _. by_request r) (λ _. h)
  where
    by_request : (r : Request) → Lim (receive_request (record l { last_in = id }) id r)
    by_request (roster_request v) = if_cases Lim (not l.rosters || not v) (λ _. h) (λ _. h)
    by_request (hosts_request v) = if_cases Lim v (λ _. h) (λ _. h)
    by_request (owner_end_request v) = if_cases Lim v (λ _. h) (λ _. h)
    by_request (forward_request v) = if_cases Lim v (λ _. h) (λ _. h)
    by_request other_request = h

settle_pending-Lim : (cs : PendingCalls) (l : Link) → Lim (settle_pending cs l)
unfolding settle_pending
settle_pending-Lim [] l = (omega arith, tt)
settle_pending-Lim ((i, c) ∷ cs) l = settle_pending-Lim cs (answer l c.ticket forward_lost)

settle_queued-Lim : (ts : List ℕ) (l : Link) → Lim l → Lim (settle_queued ts l)
unfolding settle_queued answer
settle_queued-Lim [] l h = h
settle_queued-Lim (t ∷ ts) l h = settle_queued-Lim ts (answer l t forward_lost) h

event-Lim : (l : Link) (m : Move) → Lim l → Lim (event l m)
unfolding event call_roster call_lifetime send_reply fail end_link post answer enter
event-Lim l stops h = h
event-Lim l (asks_roster t encoded sent) h =
    if_cases Lim (l.failed || is_full l) (λ _. h)
      (λ e.
        if_cases Lim (encoded && sent)
          (λ _. enter-Limited l t false (not_full l.failed (is_full l) e) h)
          (λ _. skipped l.pending l.next_id h))
event-Lim l (lifetimes t encoded sent) h =
    if_cases Lim (l.failed || is_full l) (λ _. h)
      (λ e.
        if_cases Lim (encoded && sent)
          (λ _. enter-Limited l t false (not_full l.failed (is_full l) e) h)
          (λ _. skipped l.pending l.next_id h))
event-Lim l (forwards t completion requires trace encodes targeted sent) h =
    call_forward-Lim l t completion requires trace encodes targeted sent h
event-Lim l (answers encoded sent) h =
    if_cases Lim (not l.failed && (not encoded || not sent)) (λ _. h) (λ _. h)
event-Lim l (frames f) h = if_cases Lim l.failed (λ _. h) (λ _. receive_frame-Lim l f h)
event-Lim l (closes queue) h =
    settle_queued-Lim queue (settle_pending l.pending t) (settle_pending-Lim l.pending t)
  where
    t : Link
    t = record l { posted = l.posted ++ registry_closed ∷ [] }

history-Lim : (l : Link) (ms : List Move) → Lim l → Lim (history l ms)
unfolding history step
history-Lim l [] h = h
history-Lim l (m ∷ ms) h =
    history-Lim (step l m) ms (if_cases Lim l.ended (λ _. h) (λ _. event-Lim l m h))

-- Through every history of a link at most 256 calls are under way, each under an identifier that was
-- issued, none above the last one.
pub history-IsLimited :
    (wake traces rosters accepted : Bool) (ms : List Move)
    → IsLimited (history (new_link wake traces rosters accepted) ms)
unfolding new_link
history-IsLimited wake traces rosters accepted ms =
    let h = history-Lim (new_link wake traces rosters accepted) ms (omega arith, tt) in
    record { few = h.0; issued = h.1 }
