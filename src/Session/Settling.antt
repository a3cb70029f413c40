-- ===== src/Session/Settling.antt =====
-- session.go and lane.go: the end of the connection answers every call that is under way but the close,
-- and the end of the lane answers the close.
use mathlib.Core.Bool.{false≢true, true≢false}
use sessionbus.Base.{
  Bool, List, Option, Text, [], ap, arith, as_count, false, if_cases, if◌then◌else◌, none, not,
  refl, some, subst, sym, true, ℕ, ◌&&◌, ◌++◌, ◌+◌, ◌==◌, ◌∙◌, ◌∷◌, ◌≡◌,
}
use sessionbus.Protocol.{Code, not_connected}
use sessionbus.Session.Answering.{settle_deferred-keeps}
use sessionbus.Session.Answers.{
  AllKept, IsCloseCall, IsOpen, closes, count, mine, opens, replies, replies-snoc,
}
use sessionbus.Session.Capacity.{AllDeferred}
use sessionbus.Session.Closing.{orderly_stop, record_stop, settle_deferred}
use sessionbus.Session.History.{
  connection_closed, detach, is_closing_call, is_run, rename, settle_calls, settle_pending,
  wire_ended,
}
use sessionbus.Session.Reservations.{stop_auto_close}
use sessionbus.Session.Responses.{Pending}
use sessionbus.Session.State.{Answer, Request, Session, answer_routed, finish_run, refusal}

-- What the settling of calls changes: a property that does not look at it is kept.
abbrev Calm : (Session → Type 0) → Type 0
Calm P =
    ((t : Session) (os : List (ℕ × Answer)) → P t → P (record t { answers = os }))
    × ((t : Session) (os : List Request) → P t → P (record t { logged = os }))
    × ((t : Session) → P t → P (record t { pending = [] }))
    × ((t : Session) → P t → P (record t { entry = record (t.entry) { running = false } }))

-- `n` answers on the channel `k` were sent or are owed, with `x` calls under way on it.
abbrev Settling : (Session → Type 0) → ℕ → ℕ → ℕ → Session → Type 0
Settling P k n x s = (replies k s.answers + opens (closes k s.close_call) x ≡ n) × P s

-- The connection has ended, and at most the close is not answered.
abbrev pub IsShut : ℕ → ℕ → Session → Type 0
IsShut k n s =
    (replies k s.answers + as_count (closes k s.close_call) ≡ n)
    × (s.pending ≡ [])
    × (s.stopping ≡ true)
    × (s.closed ≡ true)
    × (s.finished ≡ false)
    × (s.entry.peer ≡ true → s.close_call ≡ none)

-- The loop has returned.
abbrev pub IsDone : ℕ → ℕ → Session → Type 0
IsDone k n s = (replies k s.answers ≡ n) × (s.pending ≡ []) × (s.finished ≡ true)

skipped :
    (k : ℕ) (c : Option Request) (r : Request) (x : ℕ)
    → is_closing_call c r ≡ true
    → opens (closes k c) (as_count (mine k r) + x) ≡ opens (closes k c) x
unfolding is_closing_call
skipped k none r x e = absurd (false≢true e)
skipped k (some c) r x e = same (c.ticket == k) (mine k r) x (λ m. ground arith)
  where
    same : (b m : Bool) (x : ℕ) → (m ≡ true → b ≡ true) → opens b (as_count m + x) ≡ opens b x
    same true m x h = refl
    same false true x h = absurd (false≢true (h refl))
    same false false x h = omega arith

counted :
    (k : ℕ) (c : Option Request) (r : Request) (x : ℕ)
    → r.scheduled ≡ false
    → is_closing_call c r ≡ false
    → opens (closes k c) (as_count (mine k r) + x) ≡ as_count (r.ticket == k) + opens (closes k c) x
unfolding is_closing_call
counted k none r x s e = ap (λ y. as_count (not y && r.ticket == k) + x) s
counted k (some c) r x s e =
    ap (λ y. opens (c.ticket == k) (as_count (not y && r.ticket == k) + x)) s
    ∙ more (c.ticket == k) (r.ticket == k) x (λ m. ground arith)
  where
    more :
        (b m : Bool) (x : ℕ)
        → (m ≡ true → b ≡ false)
        → opens b (as_count m + x) ≡ as_count m + opens b x
    more true true x h = absurd (true≢false (h refl))
    more true false x h = omega arith
    more false m x h = refl

settle_calls-Settling :
    (P : Session → Type 0) (k n : ℕ) (code : Code) (p : Pending) (s : Session)
    → Calm P
    → Settling P k n (count k p) s
    → let t = settle_calls code p s in Settling P k n 0 t × (t.pending ≡ [])
unfolding settle_calls finish_run answer_routed
settle_calls-Settling P k n code [] s c h = ((h.0, c.2 s h.1), refl)
settle_calls-Settling P k n code ((i, r) ∷ p) s c h =
    settle_calls-Settling P k n code p
      (if is_closing_call t.close_call r then t else answer_routed t r (refusal code)) c
      (if_cases (Settling P k n (count k p)) (is_closing_call t.close_call r)
        (λ e. (omega (arith, g.0, skipped k t.close_call r (count k p) e), g.1))
        (λ e.
          if_cases (Settling P k n (count k p)) r.scheduled
            (λ q. (
              ap (λ z. replies k t.answers + opens (closes k t.close_call) z) (sym (absent q))
                  ∙ g.0,
              c.1 t (t.logged ++ r ∷ []) g.1,
            ))
            (λ q. (
              omega (
                arith,
                g.0,
                replies-snoc k t.answers r.ticket (refusal code),
                counted k t.close_call r (count k p) q e,
              ),
              c.0 t (t.answers ++ (r.ticket, refusal code) ∷ []) g.1,
            ))))
  where
    absent : r.scheduled ≡ true → as_count (mine k r) + count k p ≡ count k p
    absent q = ap (λ y. as_count (not y && r.ticket == k) + count k p) q ∙ omega arith

    t : Session
    t = if is_run r.method then finish_run s else s

    g : Settling P k n (as_count (mine k r) + count k p) t
    g =
        if_cases (Settling P k n (as_count (mine k r) + count k p)) (is_run r.method)
          (λ _.
            if_cases (Settling P k n (as_count (mine k r) + count k p)) s.entry.attached
              (λ _. (h.0, c.3 s h.1)) (λ _. h))
          (λ _. h)

settle_deferred-deferred :
    (code : Code) (rs : List Request) (s : Session) → (settle_deferred code rs s).deferred ≡ []
unfolding settle_deferred
settle_deferred-deferred code [] s = refl
settle_deferred-deferred code (r ∷ rs) s =
    settle_deferred-deferred code rs (answer_routed s r (refusal code))

-- All that is under way is settled, but for the close.
settle_pending-Settling :
    (P : Session → Type 0) (k n : ℕ) (s : Session)
    → Calm P
    → ((t : Session) → P t → P (record t { deferred = [] }))
    → AllDeferred s.deferred
    → Settling P k n (count k s.pending) s
    → let t = settle_pending s not_connected in
      Settling P k n 0 t × (t.pending ≡ []) × (t.deferred ≡ [])
unfolding settle_pending
settle_pending-Settling P k n s c d w h =
    let t = settle_deferred not_connected s.deferred s in
    let Q = λ (x : Session). Settling P k n (count k x.pending) x in
    let R = λ (x : Session). P x × (x.deferred ≡ []) in
    let g =
      settle_deferred-keeps Q not_connected s.deferred s (λ x os y. (y.0, c.1 x os y.1))
        (λ x y. (y.0, d x y.1)) w h in
    let e : R t = (g.1, settle_deferred-deferred not_connected s.deferred s) in
    let u : Calm R = (
      λ x os y. (c.0 x os y.0, y.1),
      λ x os y. (c.1 x os y.0, y.1),
      λ x y. (c.2 x y.0, y.1),
      λ x y. (c.3 x y.0, y.1),
    ) in
    let q = settle_calls-Settling R k n not_connected t.pending t u (g.0, e) in
    ((q.0.0, q.0.1.0), q.1, q.0.1.1)

pub wire_ended-IsShut : (k n : ℕ) (s : Session) → IsOpen k n s → IsShut k n (wire_ended s)
unfolding wire_ended connection_closed stop_auto_close detach orderly_stop record_stop
wire_ended-IsShut k n s h =
    if_cases (IsShut k n) (connection_closed s).entry.peer (λ _. shut)
      (λ _.
        let t = connection_closed s in
        let g : IsShut k n (record_stop t false) = (shut.0, shut.1, refl, shut.3, shut.4, shut.5) in
        if_cases (IsShut k n) (not t.process_exited && not t.close_timer) (λ _. g) (λ _. g))
  where
    u : Session
    u = record s { auto_close = false; stopping = true; closed = true; wire_closed = true }

    P : Session → Type 0
    P x =
        (x.stopping ≡ true)
        × (x.closed ≡ true)
        × (x.finished ≡ false)
        × (x.entry.peer ≡ true → x.close_call ≡ none)

    last : (x : ℕ) (b : Bool) → x + opens b 0 ≡ n → x + as_count b ≡ n
    last x true e = e
    last x false e = e

    settled :
        (v : Session)
        → AllDeferred v.deferred
        → Settling P k n (count k v.pending) v
        → IsShut k n (settle_pending v not_connected)
    settled v w g =
        let t = settle_pending v not_connected in
        let q =
          settle_pending-Settling P k n v (λ x os y. y, λ x os y. y, λ x y. y, λ x y. y) (λ x y. y)
            w g in
        (
          last (replies k t.answers) (closes k t.close_call) q.0.0,
          q.1,
          q.0.1.0,
          q.0.1.1,
          q.0.1.2,
          q.0.1.3,
        )

    shut : IsShut k n (connection_closed s)
    shut =
        let e : P u = (refl, refl, h.live.1, λ p. (h.peers p).0) in
        if_cases (IsShut k n) s.closed (λ e. absurd (true≢false (sym e ∙ h.live.0)))
          (λ _.
            settled (detach u)
              (if_cases (λ (x : Session). AllDeferred x.deferred) u.entry.attached (λ _. h.waiting)
                (λ _. h.waiting))
              (if_cases (λ (x : Session). Settling P k n (count k x.pending) x) u.entry.attached
                (λ _. (h.total, e)) (λ _. (h.total, e))))

-- A peer that goes on under another identity has its calls answered.
pub rename-IsOpen :
    (k n : ℕ) (s : Session) (number : ℕ) (id : Text)
    → s.entry.peer ≡ true
    → IsOpen k n s
    → IsOpen k n (rename s number id)
unfolding rename
rename-IsOpen k n s number id p h =
    let t = settle_pending s not_connected in
    let q =
      settle_pending-Settling P k n s (λ x os y. y, λ x os y. y, λ x y. y, λ x y. y) (λ x y. y)
        h.waiting (h.total, ((h.peers p).0, p, h.live.0, h.live.1, (h.peers p).1)) in
    record {
      total = ap (λ x. replies k t.answers + opens (closes k t.close_call) (count k x)) q.1 ∙ q.0.0;
      kept = subst (AllKept k t.close_call number) (sym q.1) tt;
      waiting = subst AllDeferred (sym q.2) tt;
      call = subst (IsCloseCall number) (sym q.0.1.0) tt;
      present = λ _ _. (refl, refl);
      live = (q.0.1.2, q.0.1.3);
      peers = λ _. (q.0.1.0, q.0.1.4);
    }
  where
    P : Session → Type 0
    P x =
        (x.close_call ≡ none)
        × (x.entry.peer ≡ true)
        × (x.closed ≡ false)
        × (x.finished ≡ false)
        × (x.committed ≡ false)
