-- ===== src/CommsLog/Conservation.antt =====
-- commslog.go: what becomes of the sequence numbers that `Emit` takes.
use sessionbus.Base.{
  Bool, List, Option, Option-cases, [], arith, false, if_cases, inl, inr, none, refl, some, subst,
  true, u64, ℕ, ◌++◌, ◌+◌, ◌∙◌, ◌∷◌, ◌≡◌,
}
use sessionbus.CommsLog.Events.{Event}
use sessionbus.CommsLog.Options.{Options}
use sessionbus.CommsLog.Queue.{
  add_events, admit, close, emit, emit_cases, fail, next_sequence, overflow, pending_line, push,
  push_gap, record_invalid, take,
}
use sessionbus.CommsLog.State.{Bytes, DiskRecord, Err, Logger, QueuedRecord}
use sessionbus.CommsLog.Writer.{
  Move, Phase, System, closes, emits, failed, init, run, running, settle, step, stopped, taken,
  takes, waiting, wakes, write_fails, writer, writes, writing,
}

abbrev pub events_of : List QueuedRecord → ℕ
events_of [] = 0
events_of (r ∷ rs) = r.events + events_of rs

events_of-append : (q p : List QueuedRecord) → events_of (q ++ p) ≡ events_of q + events_of p
events_of-append [] p = omega arith
events_of-append (r ∷ q) p = omega (arith, events_of-append q p)

-- A record stands for one event, or is a gap record and stands for none.
abbrev pub IsCounted : QueuedRecord → Type 0
IsCounted r = (r.is_gap ≡ true → r.events ≡ 0) × (r.is_gap ≡ false → r.raw ≡ none → r.events ≡ 0)

abbrev pub AllCounted : List QueuedRecord → Type 0
AllCounted [] = Unit {0}
AllCounted (r ∷ rs) = IsCounted r × AllCounted rs

AllCounted-snoc :
    (q : List QueuedRecord) (r : QueuedRecord)
    → AllCounted q
    → IsCounted r
    → AllCounted (q ++ r ∷ [])
AllCounted-snoc [] r a c = (c, tt)
AllCounted-snoc (x ∷ q) r a c = (a.0, AllCounted-snoc q r a.1 c)

-- The records of a logger, with `x` more events under way, account for every sequence number taken.
pub record Accounts (l : Logger) (x : ℕ) : Type 0 where
  pub balance :
      l.stats.last_sequence
      ≡ u64 (l.stats.written + l.stats.lost_overflow + l.stats.lost_write + x + events_of l.queue)
  pub counted : AllCounted l.queue

-- The same with one sequence number taken and not yet placed.
record Owes (l : Logger) (x : ℕ) : Type 0 where
  balance :
      l.stats.last_sequence
      ≡ u64
          (l.stats.written + l.stats.lost_overflow + l.stats.lost_write + x + 1 + events_of l.queue)
  counted : AllCounted l.queue

overflow-Accounts : (l : Logger) (n at x : ℕ) → Owes l x → Accounts (overflow l n at).0 x
unfolding overflow
overflow-Accounts l n at x o = ground arith

push_gap-Owes :
    (l : Logger) (r : QueuedRecord) (x : ℕ) → r.events ≡ 0 → Owes l x → Owes (push_gap l r) x
unfolding push_gap
push_gap-Owes l r x e o =
    ground (arith, events_of-append l.queue (r ∷ []), AllCounted-snoc l.queue r o.counted)

push-Accounts : (l : Logger) (raw : Bytes) (x : ℕ) → Owes l x → Accounts (push l raw) x
unfolding push
push-Accounts l raw x o = ground (
  arith,
  events_of-append l.queue (record { raw = some raw; events = 1; is_gap = false } ∷ []),
  AllCounted-snoc l.queue (record { raw = some raw; events = 1; is_gap = false }) o.counted,
)

record_invalid-Accounts : (l : Logger) (x : ℕ) → Accounts l x → Accounts (record_invalid l) x
unfolding record_invalid
record_invalid-Accounts l x a = ground arith

module _ (marshal : DiskRecord → Option Bytes) where
  pending_line-events : (l : Logger) → (pending_line marshal l).events ≡ 0
  unfolding pending_line
  pending_line-events l = ground arith

  admit-Accounts :
      (l : Logger) (n at x : ℕ) (raw : Option Bytes)
      → Owes l x
      → Accounts (admit marshal l n at raw).0 x
  unfolding admit
  admit-Accounts l n at x none o = overflow-Accounts l n at x o
  admit-Accounts l n at x (some raw) o = ground (
    arith,
    overflow-Accounts l n at x o,
    push-Accounts (push_gap l (pending_line marshal l)) raw x,
    push_gap-Owes l (pending_line marshal l) x (pending_line-events l) o,
  )

  emit-Accounts :
      (l : Logger) (e : Event) (at x : ℕ) → Accounts l x → Accounts (emit marshal l e at).0 x
  emit-Accounts l e at x a =
      emit_cases marshal (λ m. Accounts m x) l e at a (record_invalid-Accounts l x a)
        λ _ _ ev.
          admit-Accounts (next_sequence l) (next_sequence l).stats.last_sequence at x _
            (record { balance = omega (arith, a.balance); counted = a.counted })

  take-Accounts :
      (l : Logger)
      → Accounts l 0
      → Accounts (take marshal l).0 (take marshal l).1.events × IsCounted (take marshal l).1
  unfolding take
  take-Accounts l a = ground arith

u64-add : (a b : ℕ) → u64 (u64 a + b) ≡ u64 (a + b)
u64-add a b = omega arith

add_events_lem : (n : ℕ) (q : List QueuedRecord) → u64 (add_events n q) ≡ u64 (n + events_of q)
unfolding add_events
add_events_lem n [] = omega arith
add_events_lem n (r ∷ rs) = omega (arith, add_events_lem (u64 (n + r.events)) rs)

fail-Accounts :
    (l : Logger) (e : Err) (x : ℕ) → l.err ≡ none → Accounts l x → Accounts (fail l (some e) x).0 0
unfolding fail
fail-Accounts l e x f a = ground (arith, add_events_lem (u64 (l.stats.lost_write + x)) l.queue)

settle-Accounts :
    (l : Logger) (r : QueuedRecord) (raw : Bytes)
    → IsCounted r
    → Accounts l r.events
    → Accounts (settle l r raw) 0
unfolding settle
settle-Accounts l r raw c a = ground arith

close-Accounts : (l : Logger) (x : ℕ) → Accounts l x → Accounts (close l) x
unfolding close
close-Accounts l x a = ground arith

-- The events of the record in flight.
abbrev pub under_way : Phase → ℕ
under_way running = 0
under_way waiting = 0
under_way (writing r raw) = r.events
under_way stopped = 0

abbrev CountedPhase : Phase → Type 0
CountedPhase running = Unit {0}
CountedPhase waiting = Unit {0}
CountedPhase (writing r raw) = IsCounted r
CountedPhase stopped = Unit {0}

-- The error is set only when the writer returns.
abbrev pub IsLive : Phase → Logger → Type 0
IsLive stopped l = Unit {0}
IsLive running l = l.err ≡ none
IsLive waiting l = l.err ≡ none
IsLive (writing r raw) l = l.err ≡ none

module _ (marshal : DiskRecord → Option Bytes) where
  admit-err :
      (l : Logger) (n at : ℕ) (raw : Option Bytes) → (admit marshal l n at raw).0.err ≡ l.err
  unfolding admit
  admit-err l n at none = ground arith
  admit-err l n at (some raw) = ground arith

  pub emit-err : (l : Logger) (e : Event) (at : ℕ) → (emit marshal l e at).0.err ≡ l.err
  emit-err l e at =
      emit_cases marshal (λ m. m.err ≡ l.err) l e at refl (unfold record_invalid in ground arith)
        λ _ _ ev. admit-err (next_sequence l) _ at _

-- The log of a running system accounts for every sequence number.
pub record IsBalanced (l : Logger) (p : Phase) : Type 0 where
  pub accounts : Accounts l (under_way p)
  pub in_flight : CountedPhase p
  pub live : IsLive p l

IsLive-cong : (p : Phase) (l m : Logger) → m.err ≡ l.err → IsLive p l → IsLive p m
IsLive-cong stopped l m e h = tt
IsLive-cong running l m e h = cc
IsLive-cong waiting l m e h = cc
IsLive-cong (writing r raw) l m e h = cc

-- The invariant of a whole system.
abbrev pub Balanced : System → Type 0
Balanced s = IsBalanced s.logger s.phase

failed-Balanced :
    (s : System) (err : Option Err) (x : ℕ)
    → s.logger.err ≡ none
    → (err ≡ none → x ≡ 0)
    → Accounts s.logger x
    → Balanced (failed s err x)
unfolding failed
failed-Balanced s none x live z a = record {
  accounts = subst (Accounts s.logger) (z refl) a;
  in_flight = tt;
  live = tt;
}
failed-Balanced s (some e) x live z a = record {
  accounts = fail-Accounts s.logger e x live a;
  in_flight = tt;
  live = tt;
}

taken-Balanced :
    (s : System) (c : Option Err) (r : QueuedRecord) (done : Bool)
    → s.logger.err ≡ none
    → (done ≡ true → r.events ≡ 0)
    → IsCounted r
    → Accounts s.logger r.events
    → Balanced (taken s c r done)
unfolding taken
taken-Balanced s c r true live z k a =
    failed-Balanced s c 0 live (λ _. refl) (subst (Accounts s.logger) (z refl) a)
taken-Balanced s c r false live z k a = elim (Option-cases r.raw) [
  | inl e ↦
      rw (e, taken)
        (record {
          accounts = subst (Accounts s.logger) (ground arith) a;
          in_flight = tt;
          live = live;
        })
  | inr (raw, e) ↦ rw (e, taken) (record { accounts = a; in_flight = k; live = live })
]

module _ (marshal : DiskRecord → Option Bytes) where
  take-done : (l : Logger) → (take marshal l).2 ≡ true → (take marshal l).1.events ≡ 0
  unfolding take
  take-done l h = ground arith

  take-err : (l : Logger) → (take marshal l).0.err ≡ l.err
  unfolding take
  take-err l = ground arith

  writer-Balanced :
      (s : System) (p : Phase) (m : Move)
      → IsBalanced s.logger p
      → Balanced s
      → Balanced (writer marshal s p m)
  unfolding writer
  writer-Balanced s running (takes c) b same =
      taken-Balanced (record s { logger = (take marshal s.logger).0 }) c _ _
        (take-err s.logger ∙ b.live) (take-done s.logger)
        (take-Accounts marshal s.logger b.accounts).1 (take-Accounts marshal s.logger b.accounts).0
  writer-Balanced s waiting wakes b same =
      if_cases Balanced s.logger.notify
        (λ _. record {
          accounts = record { balance = b.accounts.balance; counted = b.accounts.counted };
          in_flight = tt;
          live = b.live;
        })
        (λ _. same)
  writer-Balanced s (writing r raw) writes b same = record {
    accounts = settle-Accounts s.logger r raw b.in_flight b.accounts;
    in_flight = tt;
    live = unfold settle in b.live;
  }
  writer-Balanced s (writing r raw) (write_fails x none) b same =
      failed-Balanced s (some x) r.events b.live (λ e. cc) b.accounts
  writer-Balanced s (writing r raw) (write_fails x (some c)) b same =
      failed-Balanced s (some (x ++ c)) r.events b.live (λ e. cc) b.accounts
  writer-Balanced s p m b same = same

  pub step-Balanced : (s : System) (m : Move) → Balanced s → Balanced (step marshal s m)
  unfolding step
  step-Balanced s (emits e at) b = record {
    accounts = emit-Accounts marshal s.logger e at _ b.accounts;
    in_flight = b.in_flight;
    live = IsLive-cong s.phase s.logger _ (emit-err marshal s.logger e at) b.live;
  }
  step-Balanced s closes b = record {
    accounts = close-Accounts s.logger _ b.accounts;
    in_flight = b.in_flight;
    live = IsLive-cong s.phase s.logger _ (unfold close in ground arith) b.live;
  }
  step-Balanced s (takes c) b = writer-Balanced s s.phase (takes c) b b
  step-Balanced s wakes b = writer-Balanced s s.phase wakes b b
  step-Balanced s writes b = writer-Balanced s s.phase writes b b
  step-Balanced s (write_fails e c) b = writer-Balanced s s.phase (write_fails e c) b b

  pub run-Balanced : (s : System) (ms : List Move) → Balanced s → Balanced (run marshal s ms)
  unfolding run
  run-Balanced s [] b = b
  run-Balanced s (m ∷ ms) b = run-Balanced (step marshal s m) ms (step-Balanced s m b)

  pub init-Balanced : (o : Options) → Balanced (init o)
  unfolding init
  init-Balanced o = record { accounts = ground arith; in_flight = tt; live = refl }

  -- After any interleaving of callers and the writer, the last sequence number is the number of
  -- events written, lost to overflow, lost to a failed write, being written and queued, modulo
  -- 2 ^ 64: no event that took a number is unaccounted for.
  pub run-accounts :
      (o : Options) (ms : List Move)
      → let s = run marshal (init o) ms in
        s.logger.stats.last_sequence
        ≡ u64 (
            s.logger.stats.written
            + s.logger.stats.lost_overflow
            + s.logger.stats.lost_write
            + under_way s.phase
            + events_of s.logger.queue)
  run-accounts o ms = (run-Balanced (init o) ms (init-Balanced o)).accounts.balance
