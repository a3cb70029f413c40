-- ===== src/CommsLog/Wakeups.antt =====
-- commslog.go: `wake`, the one-place channel `notify` and the writer's wait on it.
use sessionbus.Base.{
  Bool, List, Option, Option-cases, [], arith, false, if_cases, inl, inr, is_empty, none, refl,
  some, subst, sym, true, ℕ, ◌++◌, ◌∙◌, ◌∷◌, ◌≡◌, ◌⊎◌,
}
use sessionbus.CommsLog.Events.{Event}
use sessionbus.CommsLog.Gaps.{EncodesGaps, gap_line-raw}
use sessionbus.CommsLog.Options.{Options}
use sessionbus.CommsLog.Order.{IsOrdered, Ordered, init-Ordered, step-Ordered}
use sessionbus.CommsLog.Queue.{
  admit, close, emit, emit_cases, next_sequence, record_invalid, take, take_cases,
}
use sessionbus.CommsLog.State.{Bytes, DiskRecord, Err, Logger, QueuedRecord}
use sessionbus.CommsLog.Tiling.{Holds, TilesQueue}
use sessionbus.CommsLog.Writer.{
  Move, Phase, System, closes, emits, failed, init, run, running, step, stopped, taken, takes,
  waiting, wakes, write_fails, writer, writes, writing,
}

-- While the writer waits, work for it has left a signal in the channel.
abbrev IsSignalled : Phase → Logger → Type 0
IsSignalled running l = Unit {0}
IsSignalled waiting l =
    (is_empty l.queue ≡ false → l.notify ≡ true) × (l.closing ≡ true → l.notify ≡ true)
IsSignalled (writing r raw) l = Unit {0}
IsSignalled stopped l = Unit {0}

abbrev Signalled : System → Type 0
Signalled s = IsSignalled s.phase s.logger

-- A logger that has left a signal, or has no more work than before.
abbrev Signals : Logger → Logger → Type 0
Signals l m =
    (m.notify ≡ true) ⊎ ((m.notify ≡ l.notify) × (m.queue ≡ l.queue) × (m.closing ≡ l.closing))

Signals-IsSignalled : (p : Phase) (l m : Logger) → Signals l m → IsSignalled p l → IsSignalled p m
Signals-IsSignalled running l m g h = tt
Signals-IsSignalled waiting l m g h = ground arith
Signals-IsSignalled (writing r raw) l m g h = tt
Signals-IsSignalled stopped l m g h = tt

failed-Signalled : (s : System) (e : Option Err) (x : ℕ) → Signalled (failed s e x)
unfolding failed
failed-Signalled s e x = tt

taken-Signalled :
    (s : System) (c : Option Err) (r : QueuedRecord) (done : Bool)
    → (done ≡ false → r.raw ≡ none → (s.logger.queue ≡ []) × (s.logger.closing ≡ false))
    → Signalled (taken s c r done)
unfolding taken
taken-Signalled s c r true h = failed-Signalled s c 0
taken-Signalled s c r false h = elim (Option-cases r.raw) [
  | inl e ↦ rw (e, taken) (ground (arith, h refl e))
  | inr (raw, e) ↦ rw (e, taken) tt
]

module _ (marshal : DiskRecord → Option Bytes) where
  admit-Signals :
      (l : Logger) (n at : ℕ) (raw : Option Bytes) → Signals l (admit marshal l n at raw).0
  unfolding admit
  admit-Signals l n at none = inr (ground arith)
  admit-Signals l n at (some raw) = ground arith

  emit-Signals : (l : Logger) (e : Event) (at : ℕ) → Signals l (emit marshal l e at).0
  emit-Signals l e at =
      emit_cases marshal (Signals l) l e at (inr (refl, refl, refl))
        (inr (unfold record_invalid in ground arith))
        λ _ _ ev. admit-Signals (next_sequence l) _ at _

  close-Signals : (l : Logger) → Signals l (close l)
  unfolding close
  close-Signals l = ground arith

none-some : {raw : Bytes} → ◌≡◌ {A = Option Bytes} none (some raw) → ⊥
none-some e = cc

module _ (marshal : DiskRecord → Option Bytes) (enc : EncodesGaps marshal) where
  -- `take` hands out no line only when there is none, and the log is not closing.
  take-idle :
      (k : ℕ) (l : Logger)
      → Holds marshal k l
      → (take marshal l).2 ≡ false
      → (take marshal l).1.raw ≡ none
      → ((take marshal l).0.queue ≡ []) × ((take marshal l).0.closing ≡ false)
  take-idle k l h =
      take_cases marshal
        (λ w. w.2 ≡ false → w.1.raw ≡ none → (w.0.queue ≡ []) × (w.0.closing ≡ false)) l
        (λ r q e f n.
          let t : TilesQueue marshal k (r ∷ q) h.upto =
            subst (λ p. TilesQueue marshal k p h.upto) e h.queued in
          absurd (none-some (sym n ∙ t.2)))
        (λ q c f n. (q, c)) (λ g q c e f n. absurd (gap_line-raw marshal l g enc n))
        (λ q c e f n. cc)

  writer-Signalled :
      (s : System) (p : Phase) (m : Move)
      → IsOrdered marshal enc s p
      → Signalled s
      → Signalled (writer marshal s p m)
  unfolding writer
  writer-Signalled s running (takes c) o same =
      taken-Signalled (record s { logger = (take marshal s.logger).0 }) c _ _
        (take-idle o.upto s.logger o.rest)
  writer-Signalled s waiting wakes o same = if_cases Signalled s.logger.notify (λ _. tt) (λ _. same)
  writer-Signalled s (writing r raw) writes o same = tt
  writer-Signalled s (writing r raw) (write_fails x none) o same =
      failed-Signalled s (some x) r.events
  writer-Signalled s (writing r raw) (write_fails x (some c)) o same =
      failed-Signalled s (some (x ++ c)) r.events
  writer-Signalled s p m o same = same

  step-Signalled :
      (s : System) (m : Move) → Ordered marshal enc s → Signalled s → Signalled (step marshal s m)
  unfolding step
  step-Signalled s (emits e at) o h =
      Signals-IsSignalled s.phase s.logger _ (emit-Signals marshal s.logger e at) h
  step-Signalled s closes o h =
      Signals-IsSignalled s.phase s.logger _ (close-Signals marshal s.logger) h
  step-Signalled s (takes c) o h = writer-Signalled s s.phase (takes c) o h
  step-Signalled s wakes o h = writer-Signalled s s.phase wakes o h
  step-Signalled s writes o h = writer-Signalled s s.phase writes o h
  step-Signalled s (write_fails e c) o h = writer-Signalled s s.phase (write_fails e c) o h

  pub run-Signalled :
      (s : System) (ms : List Move)
      → Ordered marshal enc s
      → Signalled s
      → Signalled (run marshal s ms)
  unfolding run
  run-Signalled s [] o h = h
  run-Signalled s (m ∷ ms) o h =
      run-Signalled (step marshal s m) ms (step-Ordered marshal enc s m o) (step-Signalled s m o h)

  -- If gap records can be encoded then no wake-up is lost: after any interleaving, if the writer
  -- waits while a record is queued or the log is closing, a signal is in the channel, so that its
  -- next receive lets it go on.
  pub run-no_lost_wakeup :
      (o : Options) (ms : List Move)
      → let s = run marshal (init o) ms in
        s.phase ≡ waiting
        → (is_empty s.logger.queue ≡ false) ⊎ (s.logger.closing ≡ true)
        → (s.logger.notify ≡ true) × ((step marshal s wakes).phase ≡ running)
  run-no_lost_wakeup o ms at_wait work =
      let s = run marshal (init o) ms in
      let h : IsSignalled waiting s.logger =
        subst (λ p. IsSignalled p s.logger) at_wait
          (run-Signalled (init o) ms (init-Ordered marshal enc o) (unfold init in tt)) in
      let sig : s.logger.notify ≡ true = ground arith in
      (sig, unfold step writer in rw (at_wait, writer) (rw sig))
