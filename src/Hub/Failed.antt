-- ===== src/Hub/Failed.antt =====
-- hub.go: what a link that has failed no longer does.
use mathlib.Core.Bool.{true≢false}
use sessionbus.Base.{
  Bool, List, [], ap, arith, false, if_cases, inl, inr, not, refl, sym, true, ℕ, ◌&&◌, ◌++◌, ◌||◌,
  ◌∙◌, ◌∷◌, ◌≡◌, ◌⊎◌,
}
use sessionbus.Hub.Link.{
  Link, Move, PendingCalls, RegistryEvent, Reply, answer, answers, asks_roster, call_forward,
  call_lifetime, call_roster, closes, end_link, event, fail, forward_lost, forwards, frames,
  history, is_full, lifetimes, post, registry_closed, send_forward, send_reply, settle_pending,
  settle_queued, step, stops,
}

-- The link has failed; it has issued `n` identifiers, and posted `ps` before its end.
abbrev Quiet : ℕ → List RegistryEvent → Link → Type 0
Quiet n ps l =
    (l.failed ≡ true)
    × (l.next_id ≡ n)
    × ((l.posted ≡ ps) ⊎ ((l.posted ≡ ps ++ registry_closed ∷ []) × (l.ended ≡ true)))

settle_pending-keeps :
    (P : Link → Type 0) (cs : PendingCalls) (l : Link)
    → ((t : Link) (rs : List (ℕ × Reply)) → P t → P (record t { replies = rs }))
    → ((t : Link) → P t → P (record t { pending = [] }))
    → P l
    → P (settle_pending cs l)
unfolding settle_pending answer
settle_pending-keeps P [] l f g h = g l h
settle_pending-keeps P ((i, c) ∷ cs) l f g h =
    settle_pending-keeps P cs (answer l c.ticket forward_lost) f g
      (f l (l.replies ++ (c.ticket, forward_lost) ∷ []) h)

settle_queued-keeps :
    (P : Link → Type 0) (ts : List ℕ) (l : Link)
    → ((t : Link) (rs : List (ℕ × Reply)) → P t → P (record t { replies = rs }))
    → P l
    → P (settle_queued ts l)
unfolding settle_queued answer
settle_queued-keeps P [] l f h = h
settle_queued-keeps P (t ∷ ts) l f h =
    settle_queued-keeps P ts (answer l t forward_lost) f
      (f l (l.replies ++ (t, forward_lost) ∷ []) h)

running : (a b : Bool) → (a || b) ≡ false → a ≡ false
running a b e = ground arith

event-Quiet :
    (n : ℕ) (ps : List RegistryEvent) (l : Link) (m : Move)
    → l.ended ≡ false
    → Quiet n ps l
    → Quiet n ps (event l m)
unfolding event call_roster call_lifetime call_forward send_forward send_reply fail end_link post
    answer
event-Quiet n ps l stops r h = (refl, h.1, h.2)
event-Quiet n ps l (asks_roster t encoded sent) r h =
    if_cases (Quiet n ps) (l.failed || is_full l) (λ _. h)
      (λ e. absurd (true≢false (sym h.0 ∙ running l.failed (is_full l) e)))
event-Quiet n ps l (lifetimes t encoded sent) r h =
    if_cases (Quiet n ps) (l.failed || is_full l) (λ _. (refl, h.1, h.2))
      (λ e. absurd (true≢false (sym h.0 ∙ running l.failed (is_full l) e)))
event-Quiet n ps l (forwards t completion requires trace encodes targeted sent) r h =
    if_cases (Quiet n ps) (completion && not l.wake) (λ _. h)
      (λ _.
        if_cases (Quiet n ps) (requires && not l.traces) (λ _. h)
          (λ _.
            if_cases (Quiet n ps) (l.failed || is_full l)
              (λ _. if_cases (Quiet n ps) (is_full l) (λ _. (refl, h.1, h.2)) (λ _. h))
              (λ e. absurd (true≢false (sym h.0 ∙ running l.failed (is_full l) e)))))
event-Quiet n ps l (answers encoded sent) r h =
    if_cases (Quiet n ps) (not l.failed && (not encoded || not sent)) (λ _. (refl, h.1, h.2))
      (λ _. h)
event-Quiet n ps l (frames f) r h =
    if_cases (Quiet n ps) l.failed (λ _. h) (λ e. absurd (true≢false (sym h.0 ∙ e)))
event-Quiet n ps l (closes queue) r h =
    let t = record l { posted = l.posted ++ registry_closed ∷ [] } in
    let P =
      λ (t : Link). (t.failed ≡ true) × (t.next_id ≡ n) × (t.posted ≡ ps ++ registry_closed ∷ []) in
    let d =
      settle_queued-keeps P queue (settle_pending l.pending t) (λ t rs p. p)
        (settle_pending-keeps P l.pending t (λ t rs p. p) (λ t p. p) (h.0, h.1, first h.2)) in
    (d.0, d.1, inr (d.2, refl))
  where
    first :
        (l.posted ≡ ps) ⊎ ((l.posted ≡ ps ++ registry_closed ∷ []) × (l.ended ≡ true))
        → l.posted ++ registry_closed ∷ [] ≡ ps ++ registry_closed ∷ []
    first (inl e) = ap (λ x. x ++ registry_closed ∷ []) e
    first (inr e) = absurd (true≢false (sym e.1 ∙ r))

history-Quiet :
    (n : ℕ) (ps : List RegistryEvent) (l : Link) (ms : List Move)
    → Quiet n ps l
    → Quiet n ps (history l ms)
unfolding history step
history-Quiet n ps l [] h = h
history-Quiet n ps l (m ∷ ms) h =
    history-Quiet n ps (step l m) ms
      (if_cases (Quiet n ps) l.ended (λ _. h) (λ r. event-Quiet n ps l m r h))

-- Whatever a link that has failed goes through, it issues no further call to the daemon, and posts
-- nothing to the registry but, once, its own end.
pub failed_quiet :
    (l : Link) (ms : List Move)
    → l.failed ≡ true
    → let t = history l ms in
      (t.failed ≡ true)
      × (t.next_id ≡ l.next_id)
      × ((t.posted ≡ l.posted) ⊎ ((t.posted ≡ l.posted ++ registry_closed ∷ []) × (t.ended ≡ true)))
failed_quiet l ms e = history-Quiet l.next_id l.posted l ms (e, refl, inl refl)
