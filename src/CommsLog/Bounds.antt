-- ===== src/CommsLog/Bounds.antt =====
-- commslog.go: the byte bound of the queue.
use sessionbus.Base.{
  Bool, List, Option, Option-cases, [], arith, false, if_cases, inl, inr, length, ltb, none, refl,
  some, subst, true, ℕ, ◌++◌, ◌+◌, ◌||◌, ◌∷◌, ◌≡◌, ◌≤◌,
}
use sessionbus.Base.Int.{pos, ◌+ℤ◌, ◌-ℤ◌}
use sessionbus.CommsLog.Conservation.{Balanced, IsLive, init-Balanced, step-Balanced}
use sessionbus.CommsLog.Events.{Event}
use sessionbus.CommsLog.Options.{Options}
use sessionbus.CommsLog.Queue.{
  admit, close, emit, emit_cases, enqueue, fail, next_sequence, overflow, pending_line, push,
  push_gap, raw_length, record_invalid, take,
}
use sessionbus.CommsLog.State.{Bytes, DiskRecord, Err, Logger, QueuedRecord}
use sessionbus.CommsLog.Writer.{
  Move, Phase, System, closes, emits, failed, init, run, running, settle, step, stopped, taken,
  takes, waiting, wakes, write_fails, writer, writes, writing,
}

abbrev pub bytes_of : List QueuedRecord → ℕ
bytes_of [] = 0
bytes_of (r ∷ rs) = raw_length r.raw + bytes_of rs

bytes_of-append : (q p : List QueuedRecord) → bytes_of (q ++ p) ≡ bytes_of q + bytes_of p
bytes_of-append [] p = omega arith
bytes_of-append (r ∷ q) p = omega (arith, bytes_of-append q p)

-- With `x` bytes in the writer's hands. `queueBytes` is exact until the log closes: the last gap
-- record is written without having been counted.
pub record IsBounded (l : Logger) (x : ℕ) : Type 0 where
  pub fits : bytes_of l.queue ≤ l.max_queue_bytes
  pub exact : l.closing ≡ false → l.queue_bytes ≡ pos (bytes_of l.queue + x)

overflow-IsBounded : (l : Logger) (n at x : ℕ) → IsBounded l x → IsBounded (overflow l n at).0 x
unfolding overflow
overflow-IsBounded l n at x b = ground arith

module _ (marshal : DiskRecord → Option Bytes) where
  enqueue-IsBounded :
      (l : Logger) (n at x : ℕ) (raw : Bytes) (gap : QueuedRecord)
      → l.closing ≡ false
      → IsBounded l x
      → IsBounded (enqueue marshal l n at raw gap).0 x
  unfolding enqueue overflow push_gap push ◌+ℤ◌
  enqueue-IsBounded l n at x raw gap open_ b = ground (
    arith,
    b.exact open_,
    bytes_of-append l.queue (gap ∷ []),
    bytes_of-append l.queue (record { raw = some raw; events = 1; is_gap = false } ∷ []),
    bytes_of-append (l.queue ++ gap ∷ [])
        (record { raw = some raw; events = 1; is_gap = false } ∷ []),
  )

  admit-IsBounded :
      (l : Logger) (n at x : ℕ) (raw : Option Bytes)
      → l.closing ≡ false
      → IsBounded l x
      → IsBounded (admit marshal l n at raw).0 x
  unfolding admit
  admit-IsBounded l n at x none open_ b = overflow-IsBounded l n at x b
  admit-IsBounded l n at x (some raw) open_ b =
      if_cases {A = Logger × Bool} (λ r. IsBounded r.0 x)
        (ltb l.max_queue_bytes (length raw) || ltb l.max_file_bytes (length raw))
        (λ _. overflow-IsBounded l n at x b)
        (λ _. enqueue-IsBounded l n at x raw (pending_line marshal l) open_ b)

  emit-IsBounded :
      (l : Logger) (e : Event) (at x : ℕ) → IsBounded l x → IsBounded (emit marshal l e at).0 x
  emit-IsBounded l e at x b =
      emit_cases marshal (λ m. IsBounded m x) l e at b (unfold record_invalid in ground arith)
        λ open_ _ ev.
          admit-IsBounded (next_sequence l) _ at x _ open_
            (record { fits = b.fits; exact = b.exact })

  take-IsBounded :
      (l : Logger)
      → IsBounded l 0
      → IsBounded (take marshal l).0 (raw_length (take marshal l).1.raw)
  unfolding take
  take-IsBounded l b = ground arith

settle-IsBounded :
    (l : Logger) (r : QueuedRecord) (raw : Bytes)
    → IsBounded l (length raw)
    → IsBounded (settle l r raw) 0
unfolding settle
settle-IsBounded l r raw b = record {
  fits = b.fits;
  exact = λ c. rw (b.exact c) (unfold ◌-ℤ◌ in ground arith);
}

abbrev pub in_flight : Phase → ℕ
in_flight running = 0
in_flight waiting = 0
in_flight (writing r raw) = length raw
in_flight stopped = 0

abbrev Bounded : System → Type 0
Bounded s = IsBounded s.logger (in_flight s.phase)

failed-Bounded :
    (s : System) (e : Option Err) (x : ℕ) → IsBounded s.logger 0 → Bounded (failed s e x)
unfolding failed fail
failed-Bounded s none x b = b
failed-Bounded s (some e) x b = ground arith

failed-broken :
    (s : System) (e : Err) (x : ℕ) {y : ℕ}
    → s.logger.err ≡ none
    → IsBounded s.logger y
    → Bounded (failed s (some e) x)
unfolding failed fail
failed-broken s e x v b = ground arith

taken-Bounded :
    (s : System) (c : Option Err) (r : QueuedRecord) (done : Bool)
    → IsBounded s.logger (raw_length r.raw)
    → (done ≡ true → r.raw ≡ none)
    → Bounded (taken s c r done)
unfolding taken
taken-Bounded s c r true b h =
    failed-Bounded s c 0 (subst (λ o. IsBounded s.logger (raw_length o)) (h refl) b)
taken-Bounded s c r false b h = elim (Option-cases r.raw) [
  | inl e ↦ rw (e, taken) (subst (λ o. IsBounded s.logger (raw_length o)) e b)
  | inr (raw, e) ↦ rw (e, taken) (subst (λ o. IsBounded s.logger (raw_length o)) e b)
]

module _ (marshal : DiskRecord → Option Bytes) where
  writer-Bounded :
      (s : System) (p : Phase) (m : Move)
      → IsLive p s.logger
      → IsBounded s.logger (in_flight p)
      → Bounded s
      → Bounded (writer marshal s p m)
  unfolding writer
  writer-Bounded s running (takes c) v b same =
      taken-Bounded (record s { logger = (take marshal s.logger).0 }) c _ _
        (take-IsBounded marshal s.logger b) (unfold take in ground arith)
  writer-Bounded s waiting wakes v b same =
      if_cases Bounded s.logger.notify (λ _. record { fits = b.fits; exact = b.exact }) (λ _. same)
  writer-Bounded s (writing r raw) writes v b same = settle-IsBounded s.logger r raw b
  writer-Bounded s (writing r raw) (write_fails x none) v b same = failed-broken s x r.events v b
  writer-Bounded s (writing r raw) (write_fails x (some c)) v b same =
      failed-broken s (x ++ c) r.events v b
  writer-Bounded s p m v b same = same

  step-Bounded : (s : System) (m : Move) → Balanced s → Bounded s → Bounded (step marshal s m)
  unfolding step
  step-Bounded s (emits e at) v b = emit-IsBounded marshal s.logger e at _ b
  step-Bounded s closes v b = unfold close in ground arith
  step-Bounded s (takes c) v b = writer-Bounded s s.phase (takes c) v.live b b
  step-Bounded s wakes v b = writer-Bounded s s.phase wakes v.live b b
  step-Bounded s writes v b = writer-Bounded s s.phase writes v.live b b
  step-Bounded s (write_fails e c) v b = writer-Bounded s s.phase (write_fails e c) v.live b b

  run-Bounded : (s : System) (ms : List Move) → Balanced s → Bounded s → Bounded (run marshal s ms)
  unfolding run
  run-Bounded s [] v b = b
  run-Bounded s (m ∷ ms) v b =
      run-Bounded (step marshal s m) ms (step-Balanced marshal s m v) (step-Bounded s m v b)

  -- After any interleaving the queued lines hold at most `max_queue_bytes` bytes; and until the log
  -- closes the counter `queue_bytes` is exactly the bytes queued and being written.
  pub run-fits :
      (o : Options) (ms : List Move)
      → let s = run marshal (init o) ms in
        (bytes_of s.logger.queue ≤ s.logger.max_queue_bytes)
        × (s.logger.closing ≡ false
            → s.logger.queue_bytes ≡ pos (bytes_of s.logger.queue + in_flight s.phase))
  run-fits o ms =
      let b : Bounded (run marshal (init o) ms) =
        run-Bounded (init o) ms (init-Balanced marshal o)
          (unfold init in record { fits = omega arith; exact = λ _. refl }) in
      (b.fits, b.exact)
