-- ===== src/Worker/Records.antt =====
-- runs.go: what a worker keeps of its runs.
use mathlib.Core.List.{tail}
use sessionbus.Base.{
  Bool, List, Option, Text, [], ap, arith, false, if_cases, inl, inr, is_empty, leb, length,
  length-append, none, not, refl, some, subst, suc, sym, text_eq, text_eq_iff, true, u64, ℕ, ◌&&◌,
  ◌++◌, ◌+◌, ◌<◌, ◌||◌, ◌∙◌, ◌∷◌, ◌≡◌, ◌≤◌, ◌⊎◌,
}
use sessionbus.Protocol.{Code, RunRef, RunStatus, TurnResult, is_ok, max_operations, no_error}
use sessionbus.Runs.RunId.{checked, cut, parse_uint, run_sequence}
use sessionbus.Worker.Runs.{
  Record, Slot, Worker, ack_known, ack_run, clear_slot, closing, execute, execute_code, executing,
  is_running, new_record, publish, settle_record, start_run, terminal_status,
}

-- The records of the runs after `n`, in order and without holes, each under the identifier that the
-- daemon gave it; only the last may be running.
abbrev pub Consecutive : Text → Text → ℕ → List Record → Type 0
Consecutive id g n [] = Unit {0}
Consecutive id g n (r ∷ rs) =
    (r.sequence ≡ n + 1)
    × (run_sequence r.status.run_id ≡ (g, n + 1, true))
    × (r.status.session_id ≡ id)
    × (is_running r.status.state ≡ true → rs ≡ [])
    × Consecutive id g (n + 1) rs

abbrev pub any_running : List Record → Bool
any_running [] = false
any_running (r ∷ rs) = is_running r.status.state || any_running rs

-- An empty slot means that no run is running; a run's slot is that of the newest run.
abbrev pub SlotFits : ℕ → List Record → Option Slot → Type 0
SlotFits last rs none = any_running rs ≡ false
SlotFits last rs (some closing) = Unit {0}
SlotFits last rs (some (executing n i c)) = n ≡ last

-- What holds of a worker between two requests.
pub record IsKept (w : Worker) : Type 0 where
  pub consecutive : Consecutive w.session_id w.generation w.acknowledged w.records
  pub counted : w.last_sequence ≡ w.acknowledged + length w.records
  pub retained : length w.records ≤ max_operations
  pub slot : SlotFits w.last_sequence w.records w.run
  pub word : w.last_sequence < 18446744073709551616
  pub unopened : w.opened ≡ false → w.records ≡ []

Consecutive-snoc :
    (id g : Text) (n m : ℕ) (rs : List Record) (r : Record)
    → m ≡ n + length rs
    → any_running rs ≡ false
    → Consecutive id g n rs
    → r.sequence ≡ m + 1
    → run_sequence r.status.run_id ≡ (g, m + 1, true)
    → r.status.session_id ≡ id
    → Consecutive id g n (rs ++ r ∷ [])
Consecutive-snoc id g n m [] r e idle c s p i =
    let same : m ≡ n = omega arith in
    (
      ground arith,
      subst (λ k. run_sequence r.status.run_id ≡ (g, k + 1, true)) same p,
      i,
      λ _. refl,
      tt,
    )
Consecutive-snoc id g n m (x ∷ rs) r e idle c s p i = (
  c.0,
  c.1,
  c.2,
  λ busy_. absurd (ground arith),
  Consecutive-snoc id g (n + 1) m rs r (omega arith) (ground arith) c.4 s p i,
)

any_running-snoc :
    (rs : List Record) (r : Record)
    → any_running (rs ++ r ∷ []) ≡ (any_running rs || is_running r.status.state)
any_running-snoc [] r = ground arith
any_running-snoc (x ∷ rs) r = ground (arith, any_running-snoc rs r)

-- The parts of an identifier that `runSequence` accepts.
checked-valid :
    (prefix tail : Text) (ok : Bool) (o : Option ℕ) (p : Text) (n : ℕ)
    → checked prefix tail ok o ≡ (p, n, true)
    → (is_empty p ≡ false) × (0 < n)
checked-valid prefix tail ok none p n h = ground arith
checked-valid prefix tail ok (some m) p n h = ground arith

run_sequence-valid :
    (id p : Text) (n : ℕ) → run_sequence id ≡ (p, n, true) → (is_empty p ≡ false) × (0 < n)
unfolding run_sequence
run_sequence-valid id p n h =
    checked-valid (cut id).0 (cut id).1 (cut id).2 (parse_uint (cut id).1) p n h

-- A worker that has no generation yet has no records.
fresh-records :
    (id : Text) (n : ℕ) (g : Text) (rs : List Record)
    → is_empty g ≡ true
    → Consecutive id g n rs
    → rs ≡ []
fresh-records id n g [] e c = refl
fresh-records id n g (r ∷ rs) e c =
    absurd (ground (arith, run_sequence-valid r.status.run_id g (n + 1) c.1))

false-true : ◌≡◌ {A = Bool} false true → ⊥
false-true e = cc

-- What the checks of `execute` leave.
record IsAdmitted (w : Worker) (session_id prefix : Text) (sequence : ℕ) (valid : Bool)
    : Type 0 where
  is_open : w.opened ≡ true
  free : w.run ≡ none
  room : length w.records < max_operations
  own : session_id ≡ w.session_id
  canonical : valid ≡ true
  generation : (is_empty w.generation ≡ true) ⊎ (w.generation ≡ prefix)
  next : sequence ≡ u64 (w.last_sequence + 1)

execute_code-ok :
    (w : Worker) (session_id prefix : Text) (sequence : ℕ) (valid : Bool)
    → execute_code w session_id prefix sequence valid ≡ no_error
    → IsAdmitted w session_id prefix sequence valid
unfolding execute_code
execute_code-ok w session_id prefix sequence valid h =
    ground (arith, text_eq_iff session_id w.session_id, text_eq_iff w.generation prefix)

-- The records stay in order when the first run brings the generation.
with_generation :
    (w : Worker) (g : Text)
    → (is_empty w.generation ≡ true) ⊎ (w.generation ≡ g)
    → Consecutive w.session_id w.generation w.acknowledged w.records
    → Consecutive w.session_id g w.acknowledged w.records
with_generation w g (inl e) c =
    subst (Consecutive w.session_id g w.acknowledged)
      (sym (fresh-records w.session_id w.acknowledged w.generation w.records e c)) tt
with_generation w g (inr e) c = subst (λ x. Consecutive w.session_id x w.acknowledged w.records) e c

start_run-IsKept :
    (w : Worker) (ref : RunRef) (prefix : Text) (n : ℕ)
    → run_sequence ref.run_id ≡ (prefix, n, true)
    → IsAdmitted w ref.session_id prefix n true
    → IsKept w
    → IsKept (start_run w ref prefix n)
unfolding start_run
start_run-IsKept w ref prefix n e a k =
    let pos_n : 0 < n = (run_sequence-valid ref.run_id prefix n e).1 in
    let exact : n ≡ w.last_sequence + 1 = omega (arith, a.next, k.word) in
    record {
      consecutive =
          Consecutive-snoc w.session_id prefix w.acknowledged w.last_sequence w.records _ k.counted
            (subst (SlotFits w.last_sequence w.records) a.free k.slot)
            (with_generation w prefix a.generation k.consecutive) exact
            (subst (λ m. run_sequence ref.run_id ≡ (prefix, m, true)) exact e) a.own;
      counted =
          omega (
            arith,
            length-append w.records (new_record ref.session_id ref.run_id n ∷ []),
            k.counted,
          );
      retained =
          omega
            (arith, length-append w.records (new_record ref.session_id ref.run_id n ∷ []), a.room);
      slot = refl;
      word = omega (arith, a.next);
      unopened = λ f. absurd (false-true (sym f ∙ a.is_open));
    }

is_ok-eq : (c : Code) → is_ok c ≡ true → c ≡ no_error
is_ok-eq c h = ground arith

pub execute-IsKept : (w : Worker) (ref : RunRef) → IsKept w → IsKept (execute w ref).0
unfolding execute
execute-IsKept w ref k =
    if_cases Q (not w.opened) (λ _. k)
      λ _.
        if_cases Q (is_ok (execute_code w ref.session_id (r.0) (r.1) (r.2)))
          (λ ok.
            let a : IsAdmitted w ref.session_id r.0 r.1 r.2 =
              execute_code-ok w ref.session_id r.0 r.1 r.2 (is_ok-eq _ ok) in
            start_run-IsKept w ref r.0 r.1 (ground arith)
              (subst (IsAdmitted w ref.session_id r.0 r.1) a.canonical a) k)
          (λ _. k)
  where
    Q : Worker × Code → Type 0
    Q x = IsKept x.0

    r : Text × ℕ × Bool
    r = run_sequence ref.run_id

SlotFits-tail :
    (n : ℕ) (r : Record) (rs : List Record) (s : Option Slot)
    → SlotFits n (r ∷ rs) s
    → SlotFits n rs s
SlotFits-tail n r rs none h = ground arith
SlotFits-tail n r rs (some closing) h = tt
SlotFits-tail n r rs (some (executing m i c)) h = h

-- The first record of a run that is acknowledged leaves; the others stay as they are.
ack_known-IsKept :
    (w : Worker) (ref : RunRef) (n : ℕ) (rs : List Record)
    → run_sequence ref.run_id ≡ (w.generation, n, true)
    → w.records ≡ rs
    → IsKept w
    → IsKept (ack_known w ref n rs).0
unfolding ack_known
ack_known-IsKept w ref n [] e er k = ground arith
ack_known-IsKept w ref n (r ∷ rs) e er k =
    let c : Consecutive w.session_id w.generation w.acknowledged (r ∷ rs) =
      subst (Consecutive w.session_id w.generation w.acknowledged) er k.consecutive in
    if_cases Q (leb n w.acknowledged) (λ _. k)
      λ _.
        if_cases Q (text_eq r.status.run_id ref.run_id && not (is_running r.status.state))
          (λ h.
            let same : n ≡ w.acknowledged + 1 =
              ground (arith, text_eq_iff r.status.run_id ref.run_id) in
            record {
              consecutive = subst (λ m. Consecutive w.session_id w.generation m rs) (sym same) c.4;
              counted = omega (arith, k.counted, ap length er);
              retained = omega (arith, k.retained, ap length er);
              slot =
                  SlotFits-tail w.last_sequence r rs w.run
                    (subst (λ x. SlotFits w.last_sequence x w.run) er k.slot);
              word = k.word;
              unopened = λ f. ground (arith, k.unopened f);
            })
          (λ _. k)
  where
    Q : Worker × Code → Type 0
    Q x = IsKept x.0

pub ack_run-IsKept : (w : Worker) (ref : RunRef) → IsKept w → IsKept (ack_run w ref).0
unfolding ack_run
ack_run-IsKept w ref k =
    if_cases {A = Worker × Code} (λ x. IsKept x.0)
      (r.2 && text_eq r.0 w.generation && text_eq ref.session_id w.session_id)
      (λ h.
        ack_known-IsKept w ref r.1 w.records (ground (arith, text_eq_iff r.0 w.generation)) refl k)
      (λ _. k)
  where
    r : Text × ℕ × Bool
    r = run_sequence ref.run_id

-- A terminal status is that of the same run.
terminal_status-same :
    (s : RunStatus) (o : Option TurnResult) (failure : Text) (valid : Bool)
    → let t = terminal_status s o failure valid in
      (t.run_id ≡ s.run_id) × (t.session_id ≡ s.session_id) × (is_running t.state ≡ false)
unfolding terminal_status is_running
terminal_status-same s none failure valid = ground arith
terminal_status-same s (some r) failure valid = ground arith

module _ (o : Option TurnResult) (failure : Text) (valid : Bool) where
  abbrev terminal : RunStatus → RunStatus
  terminal s = terminal_status s o failure valid

  settle_record-Consecutive :
      (id g : Text) (n m : ℕ) (rs : List Record)
      → Consecutive id g n rs
      → Consecutive id g n (settle_record m terminal rs)
  unfolding settle_record
  settle_record-Consecutive id g n m [] c = tt
  settle_record-Consecutive id g n m (r ∷ rs) c = ground (
    arith,
    terminal_status-same r.status o failure valid,
    settle_record-Consecutive id g (n + 1) m rs c.4,
  )

  settle_record-idle :
      (id g : Text) (n m : ℕ) (rs : List Record)
      → m ≡ n + length rs
      → Consecutive id g n rs
      → any_running (settle_record m terminal rs) ≡ false
  unfolding settle_record
  settle_record-idle id g n m [] e c = refl
  settle_record-idle id g n m (r ∷ rs) e c = ground (
    arith,
    terminal_status-same r.status o failure valid,
    settle_record-idle id g (n + 1) m rs (omega arith) c.4,
  )

  length-settle_record :
      (m : ℕ) (rs : List Record) → length (settle_record m terminal rs) ≡ length rs
  unfolding settle_record
  length-settle_record m [] = refl
  length-settle_record m (r ∷ rs) = ap suc (length-settle_record m rs)

  clear_slot-fits :
      (m : ℕ) (s : Option Slot) (rs qs : List Record)
      → any_running qs ≡ false
      → SlotFits m rs s
      → SlotFits m qs (clear_slot m s)
  clear_slot-fits m none rs qs e h = e
  clear_slot-fits m (some closing) rs qs e h = tt
  clear_slot-fits m (some (executing k j d)) rs qs e h = ground arith

  pub publish-IsKept : (w : Worker) → IsKept w → IsKept (publish w w.last_sequence o failure valid)
  unfolding publish
  publish-IsKept w k = record {
    consecutive = settle_record-Consecutive _ _ _ w.last_sequence w.records k.consecutive;
    counted = omega (arith, k.counted, length-settle_record w.last_sequence w.records);
    retained = omega (arith, k.retained, length-settle_record w.last_sequence w.records);
    slot =
        clear_slot-fits w.last_sequence w.run w.records _
          (settle_record-idle _ _ _ w.last_sequence w.records k.counted k.consecutive) k.slot;
    word = k.word;
    unopened = λ f. ground (arith, k.unopened f, length-settle_record w.last_sequence w.records);
  }
