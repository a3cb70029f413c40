-- ===== src/Session/Ending.antt =====
-- session.go and lane.go: the answers on one channel once the session is stopping.
use mathlib.Core.Bool.{true≢false}
use sessionbus.Base.{
  Bool, Text, ap, arith, as_count, false, if_cases, if◌then◌else◌, inl, inr, is_some, not,
  option_cases, refl, sym, ℕ, ◌&&◌, ◌+◌, ◌==◌, ◌||◌, ◌∙◌, ◌≡◌,
}
use sessionbus.Protocol.{internal, not_connected}
use sessionbus.Session.Answers.{closes, replies-snoc}
use sessionbus.Session.Closing.{hard_stop, orderly_stop, record_stop}
use sessionbus.Session.History.{
  Move, connection_closed, displace, displaced, ends, event, exits, expires, finish, finish_lane,
  finishes, hellos, kills, owner_ends, policy_close, process_ended, readies, rejects, replied,
  responds, route, routed, routes, shuts_down, supersede, supersedes, wire_ended,
}
use sessionbus.Session.Once.{Phase, asks}
use sessionbus.Session.Reservations.{stop_auto_close}
use sessionbus.Session.Responses.{hang_up}
use sessionbus.Session.Settling.{IsDone, IsShut}
use sessionbus.Session.State.{Session, answer_routed, refusal, result}

finish_lane-IsDone :
    (k n : ℕ) (s : Session) (d : Bool) → IsShut k n s → IsDone k n (finish_lane s d)
unfolding finish_lane stop_auto_close
finish_lane-IsDone k n s d h =
    option_cases (IsDone k n) s.close_call
      (λ e. (omega (arith, h.0, ap (λ c. as_count (closes k c)) e), h.1, refl))
      (λ r e. (
        omega (
          arith,
          h.0,
          ap (λ c. as_count (closes k c)) e,
          replies-snoc k s.answers r.ticket
              (if s.forget && not d then refusal internal else result),
        ),
        h.1,
        refl,
      ))

module _ (accepts : ℕ → Bool) (fresh : Text) (k : ℕ) where
  still : {n : ℕ} (t : Session) → IsShut k n t → Phase k (n + 0) t
  still t g = inr (inl (omega (arith, g.0), g.1, g.2, g.3, g.4, g.5))

  -- A session that is stopping does not begin to close the lane.
  no_close :
      {n : ℕ} (s : Session) (ticket : ℕ) → IsShut k n s → IsShut k n (policy_close accepts s ticket)
  unfolding policy_close
  no_close {n = n} s ticket h =
      if_cases (IsShut k n) (s.stopping || is_some s.close_call || not s.committed) (λ _. h)
        (λ e.
          absurd
            (true≢false (sym h.2 ∙ going s.stopping (is_some s.close_call) (not s.committed) e)))
    where
      going : (a b c : Bool) → (a || b || c) ≡ false → a ≡ false
      going a b c e = ground arith

  pub shut_event :
      (n : ℕ) (s : Session) (m : Move)
      → IsShut k n s
      → Phase k (n + as_count (asks k m)) (event accepts fresh s m)
  unfolding event asks routed process_ended hard_stop record_stop policy_close wire_ended
      connection_closed orderly_stop route answer_routed stop_auto_close finish displace supersede
      hang_up
  shut_event n s (routes ticket destination method params trace_copy completion) h = inr (
      inl (
        if_cases (IsShut k (n + as_count (ticket == k)))
          (s.stopping || not (destination == s.entry.number) || not s.entry.peer && not s.committed)
          (λ _. (
            omega (arith, h.0, replies-snoc k s.answers ticket (refusal not_connected)),
            h.1,
            h.2,
            h.3,
            h.4,
            h.5,
          ))
          (λ e. absurd (true≢false (sym h.2 ∙ going s.stopping _ _ e)))))
    where
      going : (a b c : Bool) → (a || b || c) ≡ false → a ≡ false
      going a b c e = ground arith
  shut_event n s (responds id f) h =
      still (event accepts fresh s (responds id f))
        (if_cases (IsShut k n) s.stopping (λ _. h) (λ e. absurd (true≢false (sym h.2 ∙ e))))
  shut_event n s (readies ref ended now sent) h =
      still (event accepts fresh s (readies ref ended now sent))
        (if_cases (IsShut k n) s.stopping (λ _. h) (λ e. absurd (true≢false (sym h.2 ∙ e))))
  shut_event n s (expires ticket) h = still (event accepts fresh s (expires ticket)) (
      if_cases (IsShut k n) s.auto_close (λ _. no_close (record s { auto_close = false }) ticket h)
        (λ _. h))
  shut_event n s (owner_ends ticket) h =
      still (event accepts fresh s (owner_ends ticket))
        (if_cases (IsShut k n) s.entry.policy.persistent (λ _. h) (λ _. no_close s ticket h))
  shut_event n s ends h = still (event accepts fresh s ends) (
      if_cases (IsShut k n) (connection_closed s).entry.peer (λ _. shut)
        (λ _.
          let t = connection_closed s in
          let g : IsShut k n (record_stop t false) =
            (shut.0, shut.1, refl, shut.3, shut.4, shut.5) in
          if_cases (IsShut k n) (not t.process_exited && not t.close_timer) (λ _. g) (λ _. g)))
    where
      shut : IsShut k n (connection_closed s)
      shut = if_cases (IsShut k n) s.closed (λ _. h) (λ e. absurd (true≢false (sym h.3 ∙ e)))
  shut_event n s exits h =
      still (event accepts fresh s exits) (if_cases (IsShut k n) s.process_exited (λ _. h) (λ _. h))
  shut_event n s kills h =
      still (event accepts fresh s kills)
        (if_cases (IsShut k n) s.close_timer (λ _. (h.0, h.1, refl, h.3, h.4, h.5)) (λ _. h))
  shut_event n s (finishes deleted) h =
      if_cases (Phase k (n + 0)) (s.closed && (s.entry.peer || s.process_exited))
        (λ _.
          if_cases (Phase k (n + 0)) s.entry.peer
            (λ p.
              inr (inr (omega (arith, h.0, ap (λ c. as_count (closes k c)) (h.5 p)), h.1, refl)))
            (λ _.
              let d = finish_lane-IsDone k n s deleted h in
              inr (inr (omega (arith, d.0), d.1, d.2))))
        (λ _. still s h)
  shut_event n s displaced h =
      still (event accepts fresh s displaced)
        (if_cases (IsShut k n) (s.entry.peer && s.entry.listed) (λ _. h) (λ _. h))
  shut_event n s supersedes h =
      still (event accepts fresh s supersedes)
        (if_cases (IsShut k n) s.stopping (λ _. h) (λ e. absurd (true≢false (sym h.2 ∙ e))))
  shut_event n s (hellos number id valid accepted sent) h =
      still (event accepts fresh s (hellos number id valid accepted sent))
        (if_cases (IsShut k n) s.stopping (λ _. h) (λ e. absurd (true≢false (sym h.2 ∙ e))))
  shut_event n s (rejects sent) h =
      still (event accepts fresh s (rejects sent))
        (if_cases (IsShut k n) s.stopping (λ _. h) (λ e. absurd (true≢false (sym h.2 ∙ e))))
  shut_event n s (replied sent) h =
      still (event accepts fresh s (replied sent))
        (if_cases (IsShut k n) sent (λ _. h) (λ _. (h.0, h.1, h.2, h.3, h.4, h.5)))
  shut_event n s shuts_down h =
      let g : IsShut k n (record_stop s false) = (h.0, h.1, refl, h.3, h.4, h.5) in
      still (event accepts fresh s shuts_down)
        (if_cases (IsShut k n) (not s.process_exited && not s.close_timer) (λ _. g) (λ _. g))
