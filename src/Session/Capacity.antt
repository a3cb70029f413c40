-- ===== src/Session/Capacity.antt =====
-- session.go and delivery_queue.go: the records that a session promises to its worker never exceed 256.
use sessionbus.Base.{
  List, Option, Text, [], ap, arith, false, if_cases, is_empty, length, length-append, none, some,
  subst, true, u64, ℕ, ◌++◌, ◌+◌, ◌-◌, ◌<◌, ◌==◌, ◌∷◌, ◌≡◌, ◌≤◌,
}
use sessionbus.Protocol.{max_operations}
use sessionbus.Session.Responses.{Pending}
use sessionbus.Session.State.{Answer, Request, Session, answer_routed, finish_run, is_deliver}

-- A delivery that waits for a run: its sender has its answer.
abbrev pub IsDeferred : Request → Type 0
IsDeferred r = (r.scheduled ≡ true) × (is_deliver r.method ≡ true) × (is_empty r.run_id ≡ true)

abbrev pub AllDeferred : List Request → Type 0
AllDeferred [] = Unit {0}
AllDeferred (r ∷ rs) = IsDeferred r × AllDeferred rs

pub AllDeferred-snoc :
    (rs : List Request) (r : Request) → AllDeferred rs → IsDeferred r → AllDeferred (rs ++ r ∷ [])
AllDeferred-snoc [] r a d = (d, tt)
AllDeferred-snoc (x ∷ rs) r a d = (a.0, AllDeferred-snoc rs r a.1 d)

-- `s.runSequence-s.acknowledgedSequence`
abbrev pub promised : ℕ → ℕ → ℕ
promised sequence acknowledged = u64 (sequence + 18446744073709551616 - acknowledged)

-- The runs not acknowledged, the present one among them, and the deliveries that wait for a run are
-- at most 256, counted as the source counts them, modulo 2 ^ 64; and so are the calls that wait for an
-- answer together with those deliveries, until the lane is being closed.
pub record Accounted (run_id : Text) (sequence acknowledged : ℕ) (deferred : List Request)
    (pending : Pending) (close_call : Option Request) : Type 0 where
  pub bound : promised sequence acknowledged + length deferred ≤ max_operations
  pub present : is_empty run_id ≡ false → 0 < promised sequence acknowledged
  pub numbered : sequence < 18446744073709551616
  pub cursor : acknowledged < 18446744073709551616
  pub waiting : AllDeferred deferred
  pub calls : close_call ≡ none → length pending + length deferred ≤ max_operations

abbrev pub IsAccounted : Session → Type 0
IsAccounted s = Accounted s.run_id s.run_sequence s.acknowledged s.deferred s.pending s.close_call

pub answer_routed-IsAccounted :
    (s : Session) (r : Request) (a : Answer) → IsAccounted s → IsAccounted (answer_routed s r a)
unfolding answer_routed
answer_routed-IsAccounted s r a h = if_cases IsAccounted r.scheduled (λ _. h) (λ _. h)

pub finish_run-IsAccounted : (s : Session) → IsAccounted s → IsAccounted (finish_run s)
unfolding finish_run
finish_run-IsAccounted s h = if_cases IsAccounted s.entry.attached (λ _. h) (λ _. h)

-- With no run, nothing has to be promised for it.
pub without_run :
    {id : Text} {n a : ℕ} {rs : List Request} {p : Pending} {c : Option Request}
    → Accounted id n a rs p c
    → Accounted [] n a rs p c
without_run h = record {
  bound = h.bound;
  present = λ p. absurd (ground arith);
  numbered = h.numbered;
  cursor = h.cursor;
  waiting = h.waiting;
  calls = h.calls;
}

pub without_call :
    {id : Text} {n a : ℕ} {rs : List Request} {p q : Pending} {c : Option Request}
    → length q ≤ length p
    → Accounted id n a rs p c
    → Accounted id n a rs q c
without_call l h = record {
  bound = h.bound;
  present = h.present;
  numbered = h.numbered;
  cursor = h.cursor;
  waiting = h.waiting;
  calls = λ c. omega (arith, h.calls c, l);
}

pub without_deferred :
    {id : Text} {n a : ℕ} {rs : List Request} {p : Pending} {c : Option Request}
    → Accounted id n a rs p c
    → Accounted id n a [] p c
without_deferred h = record {
  bound = omega (arith, h.bound);
  present = h.present;
  numbered = h.numbered;
  cursor = h.cursor;
  waiting = tt;
  calls = λ c. omega (arith, h.calls c);
}

pub while_closing :
    {id : Text} {n a : ℕ} {rs : List Request} {p : Pending} {c : Option Request} {r : Request}
    → Accounted id n a rs p c
    → Accounted id n a rs p (some r)
while_closing h = record {
  bound = h.bound;
  present = h.present;
  numbered = h.numbered;
  cursor = h.cursor;
  waiting = h.waiting;
  calls = λ p. absurd (ground arith);
}

-- One more run, or one less.
pub with_run :
    {id name : Text} {n a : ℕ} {rs : List Request} {p : Pending} {c : Option Request}
    → promised n a + length rs < max_operations
    → Accounted id n a rs p c
    → Accounted name (u64 (n + 1)) a rs p c
with_run l h = record {
  bound = omega (arith, h.numbered, h.cursor, l);
  present = λ _. omega (arith, h.numbered, h.cursor, l);
  numbered = omega arith;
  cursor = h.cursor;
  waiting = h.waiting;
  calls = h.calls;
}

pub with_refused :
    {id : Text} {n a : ℕ} {rs : List Request} {p : Pending} {c : Option Request}
    → is_empty id ≡ false
    → Accounted id n a rs p c
    → Accounted [] (u64 (n + 18446744073709551615)) a rs p c
with_refused e h = record {
  bound = omega (arith, h.numbered, h.cursor, h.bound, h.present e);
  present = λ p. absurd (ground arith);
  numbered = omega arith;
  cursor = h.cursor;
  waiting = h.waiting;
  calls = h.calls;
}

pub with_call :
    {id : Text} {n a : ℕ} {rs : List Request} {p : Pending} {c : Option Request} (x : ℕ × Request)
    → (c ≡ none → length p + length rs < max_operations)
    → Accounted id n a rs p c
    → Accounted id n a rs (p ++ x ∷ []) c
with_call {p = p} x l h = record {
  bound = h.bound;
  present = h.present;
  numbered = h.numbered;
  cursor = h.cursor;
  waiting = h.waiting;
  calls = λ e. omega (arith, l e, length-append p (x ∷ []));
}

pub with_deferred :
    {id : Text} {n a : ℕ} {rs : List Request} {p : Pending} {c : Option Request} (r : Request)
    → promised n a + length rs < max_operations
    → (c ≡ none → length p + length rs < max_operations)
    → IsDeferred r
    → Accounted id n a rs p c
    → Accounted id n a (rs ++ r ∷ []) p c
with_deferred {rs = rs} r l k d h = record {
  bound = omega (arith, l, length-append rs (r ∷ []));
  present = h.present;
  numbered = h.numbered;
  cursor = h.cursor;
  waiting = AllDeferred-snoc rs r h.waiting d;
  calls = λ e. omega (arith, k e, length-append rs (r ∷ []));
}

pub without_first :
    {id : Text} {n a : ℕ} {ds rs : List Request} {p : Pending} {c : Option Request} {r : Request}
    → ds ≡ r ∷ rs
    → Accounted id n a ds p c
    → Accounted id n a rs p c
without_first {rs = rs} {r = r} e h = record {
  bound = omega (arith, h.bound, ap (length {A = Request}) e);
  present = h.present;
  numbered = h.numbered;
  cursor = h.cursor;
  waiting = (subst AllDeferred e h.waiting).1;
  calls = λ c. omega (arith, h.calls c, ap (length {A = Request}) e);
}

-- A later number is acknowledged, and no run is there or it is not the present one's.
pub with_acknowledged :
    {id : Text} {n a : ℕ} (b : ℕ) {rs : List Request} {p : Pending} {c : Option Request}
    → b ≤ n
    → a < b
    → (is_empty id ≡ false → (b == n) ≡ false)
    → Accounted id n a rs p c
    → Accounted id n b rs p c
with_acknowledged {n = n} {a = a} b l k o h = record {
  bound = omega (arith, h.bound, h.numbered, l, k);
  present = λ e. later n b l h.numbered (o e);
  numbered = h.numbered;
  cursor = omega (arith, h.numbered, l);
  waiting = h.waiting;
  calls = h.calls;
}
  where
    later : (n b : ℕ) → b ≤ n → n < 18446744073709551616 → (b == n) ≡ false → 0 < promised n b
    later n b l m e = ground arith
