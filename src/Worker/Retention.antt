-- ===== src/Worker/Retention.antt =====
-- runs.go: a result stays with the worker until it is acknowledged.
use mathlib.Core.List.{Memᴰ}
use sessionbus.Base.{
  Bool, Bool-cases, List, Text, [], ap, arith, false, if_cases, inl, inr, leb, length, not, refl,
  subst, sym, text_eq, text_eq_iff, true, ℕ, ◌&&◌, ◌++◌, ◌+◌, ◌∙◌, ◌∷◌, ◌≡◌, ◌≤◌, ◌⊎◌,
}
use sessionbus.Protocol.{Code, RunRef, RunStatus}
use sessionbus.Runs.RunId.{run_sequence}
use sessionbus.Worker.History.{
  Move, acks, closes, enters, executes, history, interrupts, leaves, opens, publishes, returns,
  step, step-IsKept,
}
use sessionbus.Worker.Records.{Consecutive, IsKept, any_running}
use sessionbus.Worker.Runs.{
  Record, Worker, ack_known, ack_run, begin_close, enter, execute, finish_native, interrupt,
  is_running, leave, open_session, publish, settle_record, start_run,
}

-- The record leaves only by an acknowledgment that covers it.
abbrev pub IsSafe : Record → Worker → Type 0
IsSafe r w = Memᴰ r w.records ⊎ (r.sequence ≤ w.acknowledged)

Memᴰ-snoc : (r x : Record) (rs : List Record) → Memᴰ r rs → Memᴰ r (rs ++ x ∷ [])
Memᴰ-snoc r x [] m = elim m [ ]
Memᴰ-snoc r x (y ∷ rs) (Memᴰ.head e) = Memᴰ.head e
Memᴰ-snoc r x (y ∷ rs) (Memᴰ.tail m) = Memᴰ.tail (Memᴰ-snoc r x rs m)

no_length : (rs : List Record) → length rs ≡ 0 → any_running rs ≡ false
no_length [] e = refl
no_length (x ∷ rs) e = absurd (omega arith)

not_in : (r : Record) (rs : List Record) → rs ≡ [] → Memᴰ r rs → ⊥
not_in r [] e m = elim m [ ]
not_in r (x ∷ rs) e m = cc

-- A terminal record is not touched by the end of a running one.
Memᴰ-settle :
    (id g : Text) (n m : ℕ) (f : RunStatus → RunStatus) (r : Record) (rs : List Record)
    → Consecutive id g n rs
    → any_running rs ≡ true
    → m ≡ n + length rs
    → is_running r.status.state ≡ false
    → Memᴰ r rs
    → Memᴰ r (settle_record m f rs)
unfolding settle_record
Memᴰ-settle id g n m f r [] c a e t h = elim h [ ]
Memᴰ-settle id g n m f r (x ∷ rs) c a e t (Memᴰ.head h) = Memᴰ.head (ground (arith, no_length rs))
Memᴰ-settle id g n m f r (x ∷ rs) c a e t (Memᴰ.tail h) =
    elim (Bool-cases (is_running x.status.state)) [
      | inl busy_ ↦ absurd (not_in r rs (c.3 busy_) h)
      | inr idle ↦
          Memᴰ.tail (Memᴰ-settle id g (n + 1) m f r rs c.4 (ground arith) (omega arith) t h)
    ]

after_first :
    (x r : Record) (n a : ℕ) (rs : List Record)
    → x.sequence ≤ n
    → a ≤ n
    → Memᴰ r (x ∷ rs) ⊎ (r.sequence ≤ a)
    → Memᴰ r rs ⊎ (r.sequence ≤ n)
after_first x r n a rs l b (inl (Memᴰ.head e)) =
    inr (subst (λ (y : Record). y.sequence ≤ n) (sym e) l)
after_first x r n a rs l b (inl (Memᴰ.tail m)) = inl m
after_first x r n a rs l b (inr h) = inr (omega arith)

started :
    (w : Worker) (r x : Record)
    → IsSafe r w
    → Memᴰ r (w.records ++ x ∷ []) ⊎ (r.sequence ≤ w.acknowledged)
started w r x (inl m) = inl (Memᴰ-snoc r x w.records m)
started w r x (inr h) = inr h

published :
    (w : Worker) (r : Record) (rs : List Record)
    → IsSafe r w
    → (Memᴰ r w.records → Memᴰ r rs)
    → Memᴰ r rs ⊎ (r.sequence ≤ w.acknowledged)
published w r rs (inl m) f = inl (f m)
published w r rs (inr h) f = inr h

IsSafe-ack :
    (w : Worker) (ref : RunRef) (r : Record) (n : ℕ) (rs : List Record)
    → w.records ≡ rs
    → Consecutive w.session_id w.generation w.acknowledged rs
    → run_sequence ref.run_id ≡ (w.generation, n, true)
    → IsSafe r w
    → IsSafe r (ack_known w ref n rs).0
unfolding ack_known
IsSafe-ack w ref r n [] e c p h = ground arith
IsSafe-ack w ref r n (x ∷ rs) e c p h =
    if_cases Q (leb n w.acknowledged) (λ _. h)
      λ over.
        if_cases Q (text_eq x.status.run_id ref.run_id && not (is_running x.status.state))
          (λ m.
            let same_id : x.status.run_id ≡ ref.run_id =
              ground (arith, text_eq_iff x.status.run_id ref.run_id) in
            let same : n ≡ w.acknowledged + 1 =
              ap (λ (y : Text × ℕ × Bool). y.1) (sym p ∙ ap run_sequence (sym same_id) ∙ c.1) in
            after_first x r n w.acknowledged rs (omega (arith, c.0)) (omega arith)
              (subst (λ q. Memᴰ r q ⊎ (r.sequence ≤ w.acknowledged)) e h))
          (λ _. h)
  where
    Q : Worker × Code → Type 0
    Q y = IsSafe r y.0

-- Every request and every end of a run leaves a record whose run has ended where it is, or has
-- acknowledged it.
step-IsSafe :
    (w : Worker) (m : Move) (r : Record)
    → IsKept w
    → is_running r.status.state ≡ false
    → IsSafe r w
    → IsSafe r (step w m)
unfolding step
step-IsSafe w (opens id suffix) r k t h =
    if_cases (IsSafe r) w.opened (λ _. h) (λ _. unfold open_session in h)
step-IsSafe w (executes ref) r k t h =
    unfold execute in
    if_cases Q (not w.opened) (λ _. h)
      λ _. if_cases Q _ (λ _. unfold start_run in started w r _ h) (λ _. h)
  where
    Q : Worker × Code → Type 0
    Q y = IsSafe r y.0
step-IsSafe w returns r k t h = unfold finish_native in ground arith
step-IsSafe w (publishes o failure valid) r k t h =
    if_cases (IsSafe r) (any_running w.records)
      (λ a.
        unfold publish in
        published w r _ h
          λ m. Memᴰ-settle _ _ _ w.last_sequence _ r w.records k.consecutive a k.counted t m)
      (λ _. h)
step-IsSafe w (acks ref) r k t h =
    unfold ack_run in
    let q : Text × ℕ × Bool = run_sequence ref.run_id in
    if_cases {A = Worker × Code} (λ y. IsSafe r y.0)
      (q.2 && text_eq q.0 w.generation && text_eq ref.session_id w.session_id)
      (λ e.
        IsSafe-ack w ref r q.1 w.records refl k.consecutive
          (ground (arith, text_eq_iff q.0 w.generation)) h)
      (λ _. h)
step-IsSafe w interrupts r k t h = unfold interrupt in ground arith
step-IsSafe w closes r k t h = unfold begin_close in ground arith
step-IsSafe w enters r k t h = unfold enter in ground arith
step-IsSafe w leaves r k t h = unfold leave in h

from_IsSafe :
    (w : Worker) (ms : List Move) (r : Record)
    → IsKept w
    → is_running r.status.state ≡ false
    → IsSafe r w
    → IsSafe r (history w ms)
unfolding history
from_IsSafe w [] r k t h = h
from_IsSafe w (m ∷ ms) r k t h =
    from_IsSafe (step w m) ms r (step-IsKept w m k) t (step-IsSafe w m r k t h)

-- From any worker that satisfies IsKept, a record whose run has ended stays among the records with
-- its status through every later history, until an acknowledgment covers its number.
pub history-retains :
    (w : Worker) (ms : List Move) (r : Record)
    → IsKept w
    → is_running r.status.state ≡ false
    → Memᴰ r w.records
    → Memᴰ r (history w ms).records ⊎ (r.sequence ≤ (history w ms).acknowledged)
history-retains w ms r k t m = from_IsSafe w ms r k t (inl m)
