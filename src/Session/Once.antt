-- ===== src/Session/Once.antt =====
-- session.go: every request that a session takes is answered once.
use mathlib.Core.Bool.{true≢false}
use sessionbus.Base.{
  ==_iff, Bool, List, Option, Text, [], ap, arith, as_count, false, if_cases, if◌then◌else◌,
  is_empty, is_none, is_some, ltb, none, not, refl, some, sym, text_eq, true, ℕ, ◌&&◌, ◌+◌, ◌==◌,
  ◌||◌, ◌∙◌, ◌∷◌, ◌≡◌, ◌⊎◌,
}
use sessionbus.Base.Int.{pos_part}
use sessionbus.Protocol.{RunRef, not_connected}
use sessionbus.Session.Answering.{begin_close-IsOpen, finish_run-IsOpen}
use sessionbus.Session.Answers.{
  IsOpen, answer_routed-IsOpen, closes, count, mine, opens, with_stop, with_total,
}
use sessionbus.Session.History.{
  Move, expires, owner_ends, policy_close, posted, route, routed, routes, step,
}
use sessionbus.Session.Issuing.{issue-IsOpen, start_deferred_delivery-IsOpen}
use sessionbus.Session.Reservations.{set_deadline, stop_auto_close}
use sessionbus.Session.Responses.{hang_up, notify_target, reject_frame, run_ended, turn_ready}
use sessionbus.Session.Settling.{IsDone, IsShut}
use sessionbus.Session.State.{
  Request, Session, closing, finish_run, is_close, refusal, session_close,
}

-- The move asks for an answer on the channel `k`, or is a close of the daemon's own on it.
unfoldable pub asks : ℕ → Move → Bool
asks k (routes ticket destination method params trace_copy completion) = ticket == k
asks k _ = false

unfoldable pub owns : ℕ → Move → Bool
owns k (expires ticket) = ticket == k
owns k (owner_ends ticket) = ticket == k
owns k _ = false

-- How many requests ask for an answer on the channel, and whether no close of the daemon's own does.
unfoldable pub asked : ℕ → List Move → ℕ
unfolding asks
asked k [] = 0
asked k (m ∷ ms) = as_count (asks k m) + asked k ms

unfoldable pub owned : ℕ → List Move → Bool
unfolding owns
owned k [] = false
owned k (m ∷ ms) = owns k m || owned k ms

-- How many of the requests come, past the test of `routeLocked`, while the loop runs.
unfoldable pub taken : (ℕ → Bool) → Text → ℕ → Session → List Move → ℕ
unfolding asks step posted
taken accepts fresh k s [] = 0
taken accepts fresh k s (m ∷ ms) =
    let rest = taken accepts fresh k (step accepts fresh s m) ms in
    (if s.finished || not (posted s m) then 0 else as_count (asks k m)) + rest

-- The answers that are owed on the channel.
abbrev pub unanswered : ℕ → Session → ℕ
unanswered k s = if s.finished then 0 else opens (closes k s.close_call) (count k s.pending)

abbrev pub Phase : ℕ → ℕ → Session → Type 0
Phase k n s = IsOpen k n s ⊎ (IsShut k n s ⊎ IsDone k n s)

module _ (accepts : ℕ → Bool) (fresh : Text) (k : ℕ) where
  run_ended-IsOpen :
      (n : ℕ) (s : Session) (ended : Bool) (now : ℕ) (sent : Bool)
      → IsOpen k n s
      → IsOpen k n (run_ended accepts fresh s ended now sent)
  unfolding run_ended set_deadline stop_auto_close hang_up
  run_ended-IsOpen n s ended now sent h =
      start_deferred_delivery-IsOpen accepts k fresh n (if sent then u else hang_up u)
        (if_cases (IsOpen k n) sent (λ _. g) (λ _. g))
    where
      t : Session
      t = finish_run (record s { run_id = []; run_from_trace = false; run_from_completion = false })

      timed : Bool
      timed = ended && ltb 0 (pos_part s.entry.policy.auto_close_ms) && is_none t.close_call

      u : Session
      u = if timed then set_deadline t (some (now + pos_part s.entry.policy.auto_close_ms)) else t

      g : IsOpen k n u
      g =
          let l =
            finish_run-IsOpen k n
              (record s { run_id = []; run_from_trace = false; run_from_completion = false }) h in
          if_cases (IsOpen k n) timed (λ _. l) (λ _. l)

  pub turn_ready-IsOpen :
      (n : ℕ) (s : Session) (ref : RunRef) (ended : Bool) (now : ℕ) (sent : Bool)
      → IsOpen k n s
      → IsOpen k n (turn_ready accepts fresh s ref ended now sent)
  unfolding turn_ready reject_frame
  turn_ready-IsOpen n s ref ended now sent h =
      let t = run_ended accepts fresh s ended now sent in
      let g = run_ended-IsOpen n s ended now sent h in
      if_cases (IsOpen k n)
        (s.entry.peer
          || not (text_eq ref.session_id s.entry.session_id)
          || is_empty s.run_id
          || not (text_eq ref.run_id s.run_id))
        (λ _. with_stop h)
        (λ _.
          if_cases (IsOpen k n)
            (s.entry.policy.notify
              && not s.run_from_completion
              && is_none t.close_call
              && not (is_empty (notify_target t)))
            (λ _. g) (λ _. g))

  -- Nothing was sent or is owed on a channel before its request.
  unused : (s : Session) (n : ℕ) → n ≡ 0 → IsOpen k n s → closes k s.close_call ≡ false
  unused s n e h = not_open (closes k s.close_call) (omega (arith, e, h.total))
    where
      not_open : (b : Bool) → opens b (count k s.pending) ≡ 0 → b ≡ false
      not_open true q = absurd (omega (arith, q))
      not_open false q = refl

  pub route-IsOpen :
      (n : ℕ) (s : Session) (r : Request)
      → r.scheduled ≡ false
      → r.collect ≡ false
      → ((r.ticket == k) ≡ true → n ≡ 0)
      → (is_close r.method ≡ true → s.entry.peer ≡ false)
      → IsOpen k n s
      → IsOpen k (n + as_count (mine k r)) (route accepts fresh s r)
  unfolding route
  route-IsOpen n s r d c z l h =
      if_cases (IsOpen k (n + as_count (mine k r)))
        (s.stopping || not (r.destination == s.entry.number) || not s.entry.peer && not s.committed)
        (λ _. answer_routed-IsOpen k n s r (refusal not_connected) h)
        (λ e.
          let here = (==_iff r.destination s.entry.number).0 (destined e) in
          issue-IsOpen accepts k fresh n s r
            (record {
              own = λ m. (unused s n (z (ticketed m)) h, here);
              shut = λ e. (d, c, here, l e, z);
            })
            h)
    where
      destined :
          (s.stopping
              || not (r.destination == s.entry.number)
              || not s.entry.peer && not s.committed)
            ≡ false
          → (r.destination == s.entry.number) ≡ true
      destined e = ground arith

      ticketed : mine k r ≡ true → (r.ticket == k) ≡ true
      ticketed m = ground arith

  pub policy_close-IsOpen :
      (n : ℕ) (s : Session) (ticket : ℕ)
      → (ticket == k) ≡ false
      → IsOpen k n s
      → IsOpen k n (policy_close accepts s ticket)
  unfolding policy_close routed stop_auto_close is_close
  policy_close-IsOpen n s ticket e h =
      if_cases (IsOpen k n) (s.stopping || is_some s.close_call || not s.committed) (λ _. h)
        (λ g.
          let r = routed ticket s.entry.number session_close (closing false) false false in
          with_total (ap (λ x. n + as_count x) e ∙ omega arith) (
            begin_close-IsOpen accepts k n (record s { auto_close = false }) r
              (no_call s.close_call s.stopping (not s.committed) g)
              (lane s.entry.peer refl (opened s.stopping (is_some s.close_call) s.committed g))
              (refl, refl, refl) (λ q. absurd (true≢false (sym q ∙ e))) h))
    where
      no_call : (o : Option Request) (a b : Bool) → (a || is_some o || b) ≡ false → o ≡ none
      no_call none a b e = refl
      no_call (some c) a b e = absurd (ground arith)

      opened : (a b c : Bool) → (a || b || not c) ≡ false → c ≡ true
      opened a b c e = ground arith

      lane : (b : Bool) → s.entry.peer ≡ b → s.committed ≡ true → s.entry.peer ≡ false
      lane false q c = q
      lane true q c = absurd (true≢false (sym c ∙ (h.peers q).1))
