-- ===== src/CommsLog/Order.antt =====
-- commslog.go: the lines on disk under every interleaving of callers and the writer.
use mathlib.Core.Option.{some-injective}
use sessionbus.Base.{
  Bool, List, Option, Option-cases, [], arith, false, if_cases, inl, inr, none, refl, some, subst,
  sym, true, ℕ, ◌++◌, ◌∙◌, ◌∷◌, ◌≡◌,
}
use sessionbus.CommsLog.Conservation.{emit-err}
use sessionbus.CommsLog.Events.{Event}
use sessionbus.CommsLog.Gaps.{EncodesGaps, gap_line-raw}
use sessionbus.CommsLog.Options.{Options}
use sessionbus.CommsLog.Queue.{close, emit, emit_cases, fail, record_invalid, take, take_cases}
use sessionbus.CommsLog.State.{Bytes, DiskRecord, Err, Logger, PendingGap, QueuedRecord}
use sessionbus.CommsLog.Tiling.{
  Covers, GapFrom, Holds, Tiles, Tiles-snoc, TilesQueue, emit-Holds, gap_line-Covers,
}
use sessionbus.CommsLog.Writer.{
  Move, Phase, System, closes, emits, failed, init, run, running, settle, step, stopped, taken,
  takes, waiting, wakes, write_fails, writer, writes, writing,
}

module _ (marshal : DiskRecord → Option Bytes) (enc : EncodesGaps marshal) where
  -- What `take` hands out when the disk covers the numbers up to `k`.
  record Hands (k : ℕ) (l : Logger) (r : QueuedRecord) (done : Bool) : Type 0 where
    finished : done ≡ true → (l.closing ≡ true) × (l.stats.last_sequence ≡ k)
    idle : done ≡ false → r.raw ≡ none → Holds marshal k l
    line :
        done ≡ false
        → (raw : Bytes) → r.raw ≡ some raw
        → (m : ℕ) × Covers marshal k raw m × Holds marshal m l

  -- With an empty queue the pending gap starts where the disk ends.
  pending :
      (k : ℕ) (l : Logger) (g : PendingGap)
      → Holds marshal k l
      → l.queue ≡ []
      → l.gap ≡ some g
      → GapFrom marshal k (some g) l.stats.last_sequence
  pending k l g h q e =
      let at_end : k ≡ h.upto = subst (λ p. TilesQueue marshal k p h.upto) q h.queued in
      subst (λ o. GapFrom marshal k o l.stats.last_sequence) e
        (subst (λ m. GapFrom marshal m l.gap l.stats.last_sequence) (sym at_end) h.pending)

  all_placed :
      (k : ℕ) (l : Logger)
      → Holds marshal k l
      → l.queue ≡ []
      → l.gap ≡ none
      → k ≡ l.stats.last_sequence
  all_placed k l h q e =
      subst (λ p. TilesQueue marshal k p h.upto) q h.queued
      ∙ subst (λ o. GapFrom marshal h.upto o l.stats.last_sequence) e h.pending

  take-Hands :
      (k : ℕ) (l : Logger)
      → Holds marshal k l
      → Hands k (take marshal l).0 (take marshal l).1 (take marshal l).2
  take-Hands k l h =
      take_cases marshal (λ w. Hands k w.0 w.1 w.2) l
        (λ r q e.
          let (mid, raw, er, c, t) : TilesQueue marshal k (r ∷ q) h.upto =
            subst (λ p. TilesQueue marshal k p h.upto) e h.queued in
          record {
            finished = λ f. cc;
            idle = λ f n. cc;
            line = λ f raw' e'. (
              mid,
              subst (λ w. Covers marshal k w mid) (some-injective _ _ (sym er ∙ e')) c,
              record {
                upto = h.upto;
                queued = t;
                pending = h.pending;
                word = h.word;
                word_upto = h.word_upto;
              },
            );
          })
        (λ q c. record { finished = λ f. cc; idle = λ f n. h; line = λ f raw e. cc })
        (λ g q c e. record {
          finished = λ f. cc;
          idle = λ f n. absurd (gap_line-raw marshal l g enc n);
          line = λ f raw e'. (
            l.stats.last_sequence,
            gap_line-Covers marshal l k l.stats.last_sequence g raw (pending k l g h q e) e',
            record {
              upto = l.stats.last_sequence;
              queued =
                  subst (λ p. TilesQueue marshal l.stats.last_sequence p l.stats.last_sequence)
                    (sym q) refl;
              pending = refl;
              word = h.word;
              word_upto = h.word;
            },
          );
        })
        (λ q c e. record {
          finished = λ f. (c, sym (all_placed k l h q e));
          idle = λ f n. cc;
          line = λ f raw e'. cc;
        })

  -- What is still to be written, by where the writer stands.
  abbrev pub Rest : ℕ → Phase → Logger → Type 0
  Rest k running l = Holds marshal k l
  Rest k waiting l = Holds marshal k l
  Rest k (writing r raw) l = (m : ℕ) × Covers marshal k raw m × Holds marshal m l
  Rest k stopped l = l.err ≡ none → (l.closing ≡ true) × (l.stats.last_sequence ≡ k)

  pub record IsOrdered (s : System) (p : Phase) : Type 0 where
    pub upto : ℕ
    pub disk : Tiles marshal 0 s.disk upto
    pub rest : Rest upto p s.logger

  abbrev pub Ordered : System → Type 0
  Ordered s = IsOrdered s s.phase

  -- The writer leaves with an error, or after the last record.
  failed-Ordered :
      (s : System) (e : Option Err) (x : ℕ) (k : ℕ)
      → Tiles marshal 0 s.disk k
      → (e ≡ none → (s.logger.closing ≡ true) × (s.logger.stats.last_sequence ≡ k))
      → Ordered (failed s e x)
  unfolding failed fail
  failed-Ordered s none x k t h = record { upto = k; disk = t; rest = λ _. h refl }
  failed-Ordered s (some e) x k t h = record { upto = k; disk = t; rest = ground arith }

  taken-Ordered :
      (s : System) (c : Option Err) (r : QueuedRecord) (done : Bool) (k : ℕ)
      → Tiles marshal 0 s.disk k
      → Hands k s.logger r done
      → Ordered (taken s c r done)
  unfolding taken
  taken-Ordered s c r true k t h = failed-Ordered s c 0 k t (λ _. h.finished refl)
  taken-Ordered s c r false k t h = elim (Option-cases r.raw) [
    | inl e ↦ rw (e, taken) (record { upto = k; disk = t; rest = h.idle refl e })
    | inr (raw, e) ↦ rw (e, taken) (record { upto = k; disk = t; rest = h.line refl raw e })
  ]

  Holds-notify :
      (k : ℕ) (l : Logger) (b : Bool)
      → Holds marshal k l
      → Holds marshal k (record l { notify = b })
  Holds-notify k l b h = record {
    upto = h.upto;
    queued = h.queued;
    pending = h.pending;
    word = h.word;
    word_upto = h.word_upto;
  }

  Holds-settle :
      (k : ℕ) (l : Logger) (r : QueuedRecord) (raw : Bytes)
      → Holds marshal k l
      → Holds marshal k (settle l r raw)
  unfolding settle
  Holds-settle k l r raw h = record {
    upto = h.upto;
    queued = h.queued;
    pending = ground arith;
    word = ground arith;
    word_upto = h.word_upto;
  }

  writer-Ordered :
      (s : System) (p : Phase) (m : Move)
      → IsOrdered s p
      → Ordered s
      → Ordered (writer marshal s p m)
  unfolding writer
  writer-Ordered s running (takes c) o same =
      taken-Ordered (record s { logger = (take marshal s.logger).0 }) c _ _ o.upto o.disk
        (take-Hands o.upto s.logger o.rest)
  writer-Ordered s waiting wakes o same =
      if_cases Ordered s.logger.notify
        (λ _. record {
          upto = o.upto;
          disk = o.disk;
          rest = Holds-notify o.upto s.logger false o.rest;
        })
        (λ _. same)
  writer-Ordered s (writing r raw) writes o same = record {
    upto = o.rest.0;
    disk = Tiles-snoc marshal 0 o.upto o.rest.0 s.disk raw o.disk o.rest.1;
    rest = Holds-settle o.rest.0 s.logger r raw o.rest.2;
  }
  writer-Ordered s (writing r raw) (write_fails x none) o same =
      failed-Ordered s (some x) r.events o.upto o.disk (λ e. cc)
  writer-Ordered s (writing r raw) (write_fails x (some c)) o same =
      failed-Ordered s (some (x ++ c)) r.events o.upto o.disk (λ e. cc)
  writer-Ordered s p m o same = same

  -- A finished log takes no more numbers.
  emit-Finished :
      (k : ℕ) (l : Logger) (e : Event) (at : ℕ)
      → l.closing ≡ true
      → l.stats.last_sequence ≡ k
      → ((emit marshal l e at).0.closing ≡ true) × ((emit marshal l e at).0.stats.last_sequence ≡ k)
  emit-Finished k l e at c h =
      emit_cases marshal (λ m. (m.closing ≡ true) × (m.stats.last_sequence ≡ k)) l e at (c, h)
        (unfold record_invalid in ground arith) (λ live. cc)

  emit-Rest :
      (k : ℕ) (p : Phase) (l : Logger) (e : Event) (at : ℕ)
      → Rest k p l
      → Rest k p (emit marshal l e at).0
  emit-Rest k running l e at r = emit-Holds marshal k l e at enc r
  emit-Rest k waiting l e at r = emit-Holds marshal k l e at enc r
  emit-Rest k (writing w raw) l e at (m, c, h) = (m, c, emit-Holds marshal m l e at enc h)
  emit-Rest k stopped l e at r =
      λ live. let (c, h) = r (sym (emit-err marshal l e at) ∙ live) in emit-Finished k l e at c h

  Holds-close : (k : ℕ) (l : Logger) → Holds marshal k l → Holds marshal k (close l)
  unfolding close
  Holds-close k l h = record {
    upto = h.upto;
    queued = ground arith;
    pending = ground arith;
    word = ground arith;
    word_upto = h.word_upto;
  }

  close-Rest : (k : ℕ) (p : Phase) (l : Logger) → Rest k p l → Rest k p (close l)
  close-Rest k running l r = Holds-close k l r
  close-Rest k waiting l r = Holds-close k l r
  close-Rest k (writing w raw) l (m, c, h) = (m, c, Holds-close m l h)
  close-Rest k stopped l r = unfold close in ground arith

  pub step-Ordered : (s : System) (m : Move) → Ordered s → Ordered (step marshal s m)
  unfolding step
  step-Ordered s (emits e at) o = record {
    upto = o.upto;
    disk = o.disk;
    rest = emit-Rest o.upto s.phase s.logger e at o.rest;
  }
  step-Ordered s closes o = record {
    upto = o.upto;
    disk = o.disk;
    rest = close-Rest o.upto s.phase s.logger o.rest;
  }
  step-Ordered s (takes c) o = writer-Ordered s s.phase (takes c) o o
  step-Ordered s wakes o = writer-Ordered s s.phase wakes o o
  step-Ordered s writes o = writer-Ordered s s.phase writes o o
  step-Ordered s (write_fails e c) o = writer-Ordered s s.phase (write_fails e c) o o

  pub run-Ordered : (s : System) (ms : List Move) → Ordered s → Ordered (run marshal s ms)
  unfolding run
  run-Ordered s [] o = o
  run-Ordered s (m ∷ ms) o = run-Ordered (step marshal s m) ms (step-Ordered s m o)

  pub init-Ordered : (o : Options) → Ordered (init o)
  unfolding init
  init-Ordered o = record {
    upto = 0;
    disk = refl;
    rest = record { upto = 0; queued = refl; pending = refl; word = refl; word_upto = refl };
  }

  -- If gap records can be encoded then, after any interleaving of callers and the writer, the lines
  -- that the sink accepted cover the sequence numbers from 1 up to some number, each once and in
  -- order: every line is the event with the next number or the gap record of the next numbers.
  pub run-Tiles :
      (o : Options) (ms : List Move)
      → (upto : ℕ) × Tiles marshal 0 (run marshal (init o) ms).disk upto
  run-Tiles o ms =
      let h : Ordered (run marshal (init o) ms) = run-Ordered (init o) ms (init-Ordered o) in
      (h.upto, h.disk)

  pub Ordered-complete :
      (s : System)
      → Ordered s
      → s.phase ≡ stopped
      → s.logger.err ≡ none
      → Tiles marshal 0 s.disk s.logger.stats.last_sequence
  Ordered-complete s h at_end ok =
      subst (Tiles marshal 0 s.disk) (sym (subst (λ p. Rest h.upto p s.logger) at_end h.rest ok).1)
        h.disk

  -- If gap records can be encoded, and the writer has returned and the log has no error, then the
  -- lines on disk cover every sequence number that was taken.
  pub run_complete :
      (o : Options) (ms : List Move)
      → (run marshal (init o) ms).phase ≡ stopped
      → (run marshal (init o) ms).logger.err ≡ none
      → Tiles marshal 0
          (run marshal (init o) ms).disk
          (run marshal (init o) ms).logger.stats.last_sequence
  run_complete o ms =
      Ordered-complete (run marshal (init o) ms) (run-Ordered (init o) ms (init-Ordered o))
