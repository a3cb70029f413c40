-- ===== src/CommsLog/Shutdown.antt =====
-- commslog.go: after `Close`, a sink that accepts every line lets the writer finish.
use sessionbus.Base.{
  List, Option, Option-cases, [], ap, arith, if◌then◌else◌, inl, inr, is_some, length, none, refl,
  some, subst, suc, sym, true, zero, ℕ, ◌++◌, ◌+◌, ◌<◌, ◌∙◌, ◌∷◌, ◌≡◌,
}
use sessionbus.CommsLog.Gaps.{EncodesGaps, gap_line-raw}
use sessionbus.CommsLog.Options.{Options}
use sessionbus.CommsLog.Order.{
  Ordered, Ordered-complete, Rest, init-Ordered, run-Ordered, step-Ordered,
}
use sessionbus.CommsLog.Queue.{fail, gap_line, take}
use sessionbus.CommsLog.State.{Bytes, DiskRecord, Logger, PendingGap, QueuedRecord}
use sessionbus.CommsLog.Tiling.{Holds, Tiles, TilesQueue}
use sessionbus.CommsLog.Writer.{
  Move, System, failed, init, run, running, settle, step, stopped, taken, takes, writer, writes,
}

-- The writer alone: `n` times a record is taken and written.
pub rounds : ℕ → List Move
rounds zero = []
rounds (suc n) = takes none ∷ writes ∷ rounds n

-- The records that the writer still has to take.
abbrev pub left : Logger → ℕ
left l = length l.queue + (if is_some l.gap then 1 else 0)

module _ (marshal : DiskRecord → Option Bytes) where
  -- A record of the queue is taken and written.
  round-queued :
      (s : System) (r : QueuedRecord) (q : List QueuedRecord) (raw : Bytes)
      → s.phase ≡ running
      → s.logger.queue ≡ r ∷ q
      → r.raw ≡ some raw
      → step marshal (step marshal s (takes none)) writes ≡ record s {
        logger = settle (record (s.logger) { queue = q }) r raw;
        phase = running;
        disk = s.disk ++ raw ∷ [];
      }
  unfolding step writer taken take
  round-queued s r q raw p e f = ground arith

  round-gap :
      (s : System) (g : PendingGap) (raw : Bytes)
      → s.phase ≡ running
      → s.logger.queue ≡ []
      → s.logger.closing ≡ true
      → s.logger.gap ≡ some g
      → (gap_line marshal s.logger g).raw ≡ some raw
      → step marshal (step marshal s (takes none)) writes ≡ record s {
        logger = settle (record (s.logger) { gap = none }) (gap_line marshal s.logger g) raw;
        phase = running;
        disk = s.disk ++ raw ∷ [];
      }
  unfolding step writer taken take
  round-gap s g raw p q c e f = ground arith

  round-done :
      (s : System)
      → s.phase ≡ running
      → s.logger.queue ≡ []
      → s.logger.closing ≡ true
      → s.logger.gap ≡ none
      → step marshal (step marshal s (takes none)) writes ≡ record s { phase = stopped }
  unfolding step writer taken take failed fail
  round-done s p q c e = ground arith

module _ (marshal : DiskRecord → Option Bytes) (enc : EncodesGaps marshal) where
  -- What the writer reaches: it has returned, with no error.
  abbrev Finished : System → Type 0
  Finished s = (s.phase ≡ stopped) × (s.logger.err ≡ none)

  run_stopped : (n : ℕ) (s : System) → s.phase ≡ stopped → run marshal s (rounds n) ≡ s
  unfolding run rounds step writer
  run_stopped zero s p = refl
  run_stopped (suc n) s p =
      let once : step marshal (step marshal s (takes none)) writes ≡ s = ground arith in
      ap (λ t. run marshal t (rounds n)) once ∙ run_stopped n s p

  -- The writer finishes in `n` rounds from before `take`.
  abbrev Drains : ℕ → Type 0
  Drains n =
      (s : System)
      → Ordered marshal enc s
      → s.phase ≡ running
      → s.logger.closing ≡ true
      → s.logger.err ≡ none
      → left s.logger < n
      → Finished (run marshal s (rounds n))

  -- One more round, where it writes a record and leaves the rest to `ih`.
  round-Drains :
      (n : ℕ) (s t : System)
      → Drains n
      → Ordered marshal enc s
      → step marshal (step marshal s (takes none)) writes ≡ t
      → t.phase ≡ running
      → t.logger.closing ≡ true
      → t.logger.err ≡ none
      → left t.logger < n
      → Finished (run marshal (step marshal (step marshal s (takes none)) writes) (rounds n))
  round-Drains n s t ih o e p c f m =
      subst (λ u. Finished (run marshal u (rounds n))) (sym e)
        (ih t
          (subst (Ordered marshal enc) e
            (step-Ordered marshal enc _ writes (step-Ordered marshal enc s (takes none) o)))
          p c f m)

  drain_round :
      (n : ℕ) (s : System) (q : List QueuedRecord) (g : Option PendingGap)
      → Drains n
      → (o : Ordered marshal enc s) → Holds marshal o.upto s.logger
      → s.phase ≡ running
      → s.logger.closing ≡ true
      → s.logger.err ≡ none
      → left s.logger < suc n
      → s.logger.queue ≡ q
      → s.logger.gap ≡ g
      → Finished (run marshal (step marshal (step marshal s (takes none)) writes) (rounds n))
  drain_round n s (r ∷ q) g ih o h p c f m eq eg =
      let t : TilesQueue marshal o.upto (r ∷ q) h.upto =
        subst (λ x. TilesQueue marshal o.upto x h.upto) eq h.queued in
      round-Drains n s _ ih o (round-queued marshal s r q t.1 p eq t.2) refl (unfold settle in c)
        (unfold settle in f) (unfold settle in ground arith)
  drain_round n s [] (some g) ih o h p c f m eq eg =
      elim (Option-cases (gap_line marshal s.logger g).raw) [
        | inl x ↦ absurd (gap_line-raw marshal s.logger g enc x)
        | inr (raw, x) ↦
            round-Drains n s _ ih o (round-gap marshal s g raw p eq c eg x) refl
              (unfold settle in c) (unfold settle in f) (unfold settle in ground arith)
      ]
  drain_round n s [] none ih o h p c f m eq eg =
      subst (λ u. Finished (run marshal u (rounds n))) (sym (round-done marshal s p eq c eg))
        (subst Finished (sym (run_stopped n (record s { phase = stopped }) refl)) (refl, f))

  -- From before `take`, with the log closing.
  drain : (n : ℕ) → Drains n
  unfolding run rounds
  drain zero s o p c e m = absurd (omega arith)
  drain (suc n) s o p c e m =
      drain_round n s s.logger.queue s.logger.gap (drain n) o
        (subst (λ q. Rest marshal enc o.upto q s.logger) p o.rest) p c e m refl refl

  -- If gap records can be encoded, then from every state of the log that is closing and has no
  -- error, with the writer before `take`, a sink that accepts every line lets the writer return
  -- with no error once it has made one round more than there are records and pending gaps left,
  -- and the disk then covers every sequence number taken.
  pub close_drains :
      (o : Options) (ms : List Move)
      → let s = run marshal (init o) ms in
        let t = run marshal s (rounds (suc (left s.logger))) in
        s.phase ≡ running
        → s.logger.closing ≡ true
        → s.logger.err ≡ none
        → (t.phase ≡ stopped)
          × (t.logger.err ≡ none)
          × Tiles marshal 0 t.disk t.logger.stats.last_sequence
  close_drains o ms p c e =
      let s = run marshal (init o) ms in
      let n = suc (left s.logger) in
      let before : Ordered marshal enc s =
        run-Ordered marshal enc (init o) ms (init-Ordered marshal enc o) in
      let (stops, ok) : Finished (run marshal s (rounds n)) =
        drain n s before p c e (omega arith) in
      (
        stops,
        ok,
        Ordered-complete marshal enc (run marshal s (rounds n))
            (run-Ordered marshal enc s (rounds n) before) stops ok,
      )
