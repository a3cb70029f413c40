-- ===== src/Session/Reservations.antt =====
-- policy.go and delivery_queue.go: deadlines, the runs that a session reserves, and the worker records
-- that it promises.
use sessionbus.Base.{
  Bool, Option, Text, [], false, if◌then◌else◌, is_empty, is_some, leb, length, ltb, none, some,
  text_eq, u64, ℕ, ◌&&◌, ◌+◌, ◌-◌,
}
use sessionbus.Protocol.{RunRef, max_operations}
use sessionbus.Runs.RunId.{cut, parse_uint, run_name}
use sessionbus.Session.State.{Session, finish_run}

unfoldable pub stop_auto_close : Session → Session
stop_auto_close s = record s { auto_close = false }

unfoldable pub set_deadline : Session → Option ℕ → Session
unfolding stop_auto_close
set_deadline s at = record (stop_auto_close s) { deadline = at; auto_close = is_some at }

-- `s.runSequence-s.acknowledgedSequence`, which wraps.
unfoldable pub outstanding : Session → ℕ
outstanding s = u64 (s.run_sequence + 18446744073709551616 - s.acknowledged)

unfoldable pub has_run_capacity : Session → Bool
unfolding outstanding
has_run_capacity s = ltb (u64 (outstanding s + length s.deferred)) max_operations

-- The test and the number, once the identifier is cut and parsed.
unfoldable pub acknowledged_by : Session → RunRef → Text × Text × Bool → Option ℕ → Option ℕ
acknowledged_by s ref (generation, suffix, ok) none = none
acknowledged_by s ref (generation, suffix, ok) (some n) =
    if ok
      && text_eq generation s.run_generation
      && text_eq ref.session_id s.entry.session_id
      && leb n s.run_sequence
      && ltb s.acknowledged n
    then some n
    else none

unfoldable pub record_acknowledgment : Session → RunRef → Session
unfolding acknowledged_by
record_acknowledgment s ref =
    elim (acknowledged_by s ref (cut ref.run_id) (parse_uint (cut ref.run_id).1)) [
      | none ↦ s
      | some n ↦ record s { acknowledged = n }
    ]

-- `fresh` is the result of `randomID("run")`.
unfoldable pub reserve_run : Text → Session → Session
unfolding set_deadline
reserve_run fresh s =
    let generation = if is_empty s.run_generation then fresh else s.run_generation in
    let sequence = u64 (s.run_sequence + 1) in
    record (set_deadline (record s { previous_deadline = s.deadline }) none) {
      run_from_trace = false;
      run_from_completion = false;
      run_generation = generation;
      run_sequence = sequence;
      run_id = run_name generation sequence;
    }

unfoldable pub refuse_run : Session → Text → Session
unfolding finish_run set_deadline
refuse_run s id =
    if text_eq s.run_id id
    then set_deadline
        (finish_run (record s {
          run_id = [];
          run_from_trace = false;
          run_from_completion = false;
          run_sequence = u64 (s.run_sequence + 18446744073709551615);
        }))
        s.previous_deadline
    else s
