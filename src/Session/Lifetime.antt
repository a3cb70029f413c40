-- ===== src/Session/Lifetime.antt =====
-- session.go: the answers on one channel through everything that a session goes through.
use mathlib.Core.Bool.{true≢false}
use sessionbus.Base.{
  Bool, Bool-cases, List, Option, Text, [], ap, arith, as_count, false, if_cases, if◌then◌else◌,
  inl, inr, not, refl, subst, sym, text_eq, true, ℕ, ◌&&◌, ◌+◌, ◌||◌, ◌∙◌, ◌∷◌, ◌≡◌, ◌≤◌,
}
use sessionbus.Session.Answers.{
  IsOpen, Opened, closes, count, opens, replies, with_stop, with_total,
}
use sessionbus.Session.Closing.{hard_stop, orderly_stop, record_stop}
use sessionbus.Session.Ending.{shut_event}
use sessionbus.Session.History.{
  Move, displace, displaced, ends, event, exits, expires, finish, finishes, hellos, history, kills,
  owner_ends, peer_hello, posted, posts, process_ended, readies, rejects, replied, responds, routed,
  routes, shuts_down, step, supersede, supersedes, wire_ended,
}
use sessionbus.Session.Issuing.{deliver-is_close}
use sessionbus.Session.Once.{
  Phase, asked, asks, owned, owns, policy_close-IsOpen, route-IsOpen, taken, turn_ready-IsOpen,
  unanswered,
}
use sessionbus.Session.Replies.{receive_response-IsOpen}
use sessionbus.Session.Responses.{Pending, hang_up, reject_frame}
use sessionbus.Session.Settling.{IsShut, rename-IsOpen, wire_ended-IsShut}
use sessionbus.Session.State.{
  Answer, Entry, Method, Request, Session, is_close, is_deliver, new_session,
}

-- No close is posted to a peer.
not_posted : (e : Entry) (m : Method) → posts e m ≡ true → is_close m ≡ true → e.peer ≡ false
unfolding posts
not_posted e m p c = elim (Bool-cases (is_deliver m)) [
  | inl d ↦ absurd (true≢false (sym c ∙ deliver-is_close m d))
  | inr d ↦ lane e.peer (is_deliver m) d p
]
  where
    lane : (a b : Bool) → b ≡ false → not (a && not b) ≡ true → a ≡ false
    lane a b e f = ground arith

with_displaced :
    {k n : ℕ} {os : List (ℕ × Answer)} {p : Pending} {ds : List Request} {c : Option Request}
    {number : ℕ} {stopping attached listed closed finished peer committed : Bool}
    → peer ≡ true
    → Opened k n os p ds c number stopping attached listed closed finished peer committed
    → Opened k n os p ds c number stopping false false closed finished peer committed
with_displaced e h = record {
  total = h.total;
  kept = h.kept;
  waiting = h.waiting;
  call = h.call;
  present = λ _ q. absurd (true≢false (sym e ∙ q));
  live = h.live;
  peers = h.peers;
}

module _ (accepts : ℕ → Bool) (fresh : Text) (k : ℕ) where
  peer_hello-IsOpen :
      (n : ℕ) (s : Session) (number : ℕ) (id : Text) (valid accepted sent : Bool)
      → IsOpen k n s
      → IsOpen k n (peer_hello s number id valid accepted sent)
  unfolding peer_hello reject_frame hang_up
  peer_hello-IsOpen n s number id valid accepted sent h =
      if_cases (IsOpen k n) (not s.entry.peer || not valid || not s.entry.attached || not accepted)
        (λ _. with_stop h)
        (λ e.
          let g =
            if_cases (IsOpen k n) (text_eq id s.entry.session_id) (λ _. h)
              (λ _.
                rename-IsOpen k n s number id
                  (is_peer s.entry.peer valid s.entry.attached accepted e) h) in
          if_cases (IsOpen k n) sent (λ _. g) (λ _. g))
    where
      is_peer : (a b c d : Bool) → (not a || not b || not c || not d) ≡ false → a ≡ true
      is_peer a b c d e = ground arith

  open_event :
      (n : ℕ) (s : Session) (m : Move)
      → (asks k m ≡ true → n ≡ 0)
      → owns k m ≡ false
      → posted s m ≡ true
      → IsOpen k n s
      → Phase k (n + as_count (asks k m)) (event accepts fresh s m)
  unfolding event asks owns routed process_ended hard_stop record_stop finish displace supersede
      reject_frame hang_up orderly_stop posted
  open_event n s (routes ticket destination method params trace_copy completion) z o y h = inl (
      route-IsOpen accepts fresh k n s
        (routed ticket destination method params trace_copy completion) refl refl z
        (not_posted s.entry method y) h)
  open_event n s (responds id f) z o y h = inl (
      with_total (omega arith) (
        if_cases (IsOpen k n) s.stopping (λ _. h)
          (λ p. receive_response-IsOpen accepts fresh k n s id f p h)))
  open_event n s (readies ref ended now sent) z o y h = inl (
      with_total (omega arith) (
        if_cases (IsOpen k n) s.stopping (λ _. h)
          (λ _. turn_ready-IsOpen accepts fresh k n s ref ended now sent h)))
  open_event n s (expires ticket) z o y h = inl (
      with_total (omega arith) (
        if_cases (IsOpen k n) s.auto_close
          (λ _. policy_close-IsOpen accepts fresh k n (record s { auto_close = false }) ticket o h)
          (λ _. h)))
  open_event n s (owner_ends ticket) z o y h = inl (
      with_total (omega arith) (
        if_cases (IsOpen k n) s.entry.policy.persistent (λ _. h)
          (λ _. policy_close-IsOpen accepts fresh k n s ticket o h)))
  open_event n s ends z o y h =
      inr (inl (subst (λ m. IsShut k m (wire_ended s)) (omega arith) (wire_ended-IsShut k n s h)))
  open_event n s exits z o y h =
      inl (with_total (omega arith) (if_cases (IsOpen k n) s.process_exited (λ _. h) (λ _. h)))
  open_event n s kills z o y h =
      inl
        (with_total (omega arith) (if_cases (IsOpen k n) s.close_timer (λ _. with_stop h) (λ _. h)))
  open_event n s (finishes deleted) z o y h = inl (
      with_total (omega arith) (
        if_cases (IsOpen k n) (s.closed && (s.entry.peer || s.process_exited))
          (λ e. absurd (true≢false (sym (is_closed s.closed _ e) ∙ h.live.0))) (λ _. h)))
    where
      is_closed : (a b : Bool) → (a && b) ≡ true → a ≡ true
      is_closed a b e = ground arith
  open_event n s displaced z o y h = inl (
      with_total (omega arith) (
        if_cases (IsOpen k n) (s.entry.peer && s.entry.listed)
          (λ e. with_displaced (is_peer s.entry.peer s.entry.listed e) h) (λ _. h)))
    where
      is_peer : (a b : Bool) → (a && b) ≡ true → a ≡ true
      is_peer a b e = ground arith
  open_event n s supersedes z o y h =
      inl (with_total (omega arith) (if_cases (IsOpen k n) s.stopping (λ _. h) (λ _. with_stop h)))
  open_event n s (hellos number id valid accepted sent) z o y h = inl (
      with_total (omega arith) (
        if_cases (IsOpen k n) s.stopping (λ _. h)
          (λ _. peer_hello-IsOpen n s number id valid accepted sent h)))
  open_event n s (rejects sent) z o y h =
      inl (with_total (omega arith) (if_cases (IsOpen k n) s.stopping (λ _. h) (λ _. with_stop h)))
  open_event n s (replied sent) z o y h =
      inl (with_total (omega arith) (if_cases (IsOpen k n) sent (λ _. h) (λ _. h)))
  open_event n s shuts_down z o y h = inl (
      with_total (omega arith) (
        if_cases (IsOpen k n) (not s.process_exited && not s.close_timer) (λ _. with_stop h)
          (λ _. with_stop h)))

  move_answers :
      (n : ℕ) (s : Session) (m : Move)
      → (asks k m ≡ true → n ≡ 0)
      → owns k m ≡ false
      → Phase k n s
      → Phase k
          (n + (if s.finished || not (posted s m) then 0 else as_count (asks k m)))
          (step accepts fresh s m)
  unfolding step
  move_answers n s m z o h = by_finished s.finished (posted s m) refl refl h
    where
      idle : {x : ℕ} → Phase k x s → Phase k (x + 0) s
      idle h = subst (λ y. Phase k y s) (omega arith) h

      by_finished :
          (b p : Bool)
          → s.finished ≡ b
          → posted s m ≡ p
          → Phase k n s
          → Phase k
              (n + (if b || not p then 0 else as_count (asks k m)))
              (if b || not p then s else event accepts fresh s m)
      by_finished true p e q h = idle h
      by_finished false false e q h = idle h
      by_finished false true e q (inl h) = open_event n s m z o q h
      by_finished false true e q (inr (inl h)) = shut_event accepts fresh k n s m h
      by_finished false true e q (inr (inr h)) = absurd (true≢false (sym h.2 ∙ e))

  history_answers :
      (n : ℕ) (s : Session) (ms : List Move)
      → n + asked k ms ≤ 1
      → owned k ms ≡ false
      → Phase k n s
      → Phase k (n + taken accepts fresh k s ms) (history accepts fresh s ms)
  unfolding history asked owned taken
  history_answers n s [] l o h = subst (λ x. Phase k x s) (omega arith) h
  history_answers n s (m ∷ ms) l o h =
      let x = if s.finished || not (posted s m) then 0 else as_count (asks k m) in
      let t = step accepts fresh s m in
      subst (λ y. Phase k y (history accepts fresh t ms)) (omega arith)
        (history_answers (n + x) t ms (fewer (s.finished || not (posted s m)))
          (right (owns k m) (owned k ms) o)
          (move_answers n s m (λ e. omega (arith, l, ap as_count e))
            (left (owns k m) (owned k ms) o) h))
    where
      left : (a b : Bool) → (a || b) ≡ false → a ≡ false
      left a b e = ground arith

      right : (a b : Bool) → (a || b) ≡ false → b ≡ false
      right a b e = ground arith

      fewer : (f : Bool) → n + (if f then 0 else as_count (asks k m)) + asked k ms ≤ 1
      fewer true = omega (arith, l)
      fewer false = omega (arith, l)

-- What is answered and owed on the channel `k`, and that the end of the connection leaves no call.
pub record IsAnswered (k n : ℕ) (s : Session) : Type 0 where
  pub exact : replies k s.answers + unanswered k s ≡ n
  pub settled : s.closed ≡ true → s.pending ≡ []

-- Take a new session of an attached entry that the directory lists, a peer's or a committed lane's, and
-- a channel on which at most one request asks for an answer, and which no close of the daemon's own
-- uses. After any sequence of moves (requests, responses, turn.ready, session.hello, answers,
-- refused frames, deadlines, the owner's end, displacement, supersession, shutdown, the ends of the
-- connection and the process), the answers sent on the channel and those still owed are together as many as the requests
-- on it that the directory posted while the loop ran; what is owed is owed for a call under way or for
-- the close of the lane, no call is under way once the connection has ended, and nothing is owed once
-- the loop has returned.
pub history-IsAnswered :
    (accepts : ℕ → Bool) (fresh : Text) (e : Entry) (k : ℕ) (ms : List Move)
    → e.attached ≡ true
    → e.listed ≡ true
    → asked k ms ≤ 1
    → owned k ms ≡ false
    → IsAnswered k
        (taken accepts fresh k (new_session e) ms)
        (history accepts fresh (new_session e) ms)
unfolding new_session
history-IsAnswered accepts fresh e k ms a l o w =
    by_phase (history accepts fresh (new_session e) ms) (omega arith)
      (history_answers accepts fresh k 0 (new_session e) ms (omega (arith, o)) w (inl start))
  where
    start : IsOpen k 0 (new_session e)
    start = record {
      total = refl;
      kept = tt;
      waiting = tt;
      call = tt;
      present = λ _ _. (a, l);
      live = (refl, refl);
      peers = λ p. (refl, ap not p);
    }

    owed : Session → Bool → ℕ
    owed s f =
        replies k s.answers + (if f then 0 else opens (closes k s.close_call) (count k s.pending))

    closing_only : (b : Bool) → opens b 0 ≡ as_count b
    closing_only true = refl
    closing_only false = refl

    by_phase : {n m : ℕ} (s : Session) → n ≡ m → Phase k n s → IsAnswered k m s
    by_phase s q (inl h) = record {
      exact = ap (owed s) h.live.1 ∙ h.total ∙ q;
      settled = λ c. absurd (true≢false (sym c ∙ h.live.0));
    }
    by_phase s q (inr (inl h)) = record {
      exact =
          ap (owed s) h.4
          ∙ ap (λ p. replies k s.answers + opens (closes k s.close_call) (count k p)) h.1
          ∙ ap (λ x. replies k s.answers + x) (closing_only (closes k s.close_call))
          ∙ h.0
          ∙ q;
      settled = λ _. h.1;
    }
    by_phase s q (inr (inr h)) = record {
      exact = ap (owed s) h.2 ∙ omega (arith, h.0, q);
      settled = λ _. h.1;
    }
