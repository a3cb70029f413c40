-- ===== src/Worker/Tests.antt =====
-- A worker on concrete requests.
use mathlib.Core.List.{Memᴰ}
use sessionbus.Base.{List, [], codes, none, refl, subst, sym, text_eq, true, ◌∷◌, ◌≡◌, ◌≤◌, ◌⊎◌}
use sessionbus.Protocol.{RunRef, unavailable}
use sessionbus.Runs.RunId.{cut, format_digits, format_uint, parse_uint, run_sequence}
use sessionbus.Worker.History.{
  Move, acks, executes, history, history-IsKept, interrupts, opens, publishes, step,
}
use sessionbus.Worker.Records.{IsKept}
use sessionbus.Worker.Retention.{history-retains}
use sessionbus.Worker.Runs.{
  Record, execute, execute_code, is_running, new_worker, open_session, publish, settle_record,
  start_run, terminal_status,
}

abbrev first_ref : RunRef
first_ref = record { session_id = codes "s@h"; run_id = codes "g/1" }

-- A session is opened, and its first run is executed and published.
abbrev one_run : List Move
one_run =
    opens (codes "s") (codes "@h") ∷ executes first_ref ∷ publishes none (codes "lost") true ∷ []

abbrev ended : Record
ended = record {
  status = record {
    session_id = codes "s@h";
    run_id = codes "g/1";
    state = unavailable;
    result = none;
    reason = codes "lost";
  };
  sequence = 1;
}

one_run_records : (history new_worker one_run).records ≡ ended ∷ []
unfolding history step open_session execute execute_code start_run publish terminal_status
    settle_record run_sequence cut parse_uint format_uint text_eq is_running new_worker
    format_digits
one_run_records = refl

one_run_generation : (history new_worker one_run).generation ≡ codes "g"
unfolding history step open_session execute execute_code start_run publish terminal_status
    settle_record run_sequence cut parse_uint format_uint text_eq is_running new_worker
    format_digits
one_run_generation = refl

history-IsKept_example : IsKept (history new_worker one_run)
history-IsKept_example = history-IsKept one_run

ended_kept : Memᴰ ended (history new_worker one_run).records
ended_kept = subst (Memᴰ ended) (sym one_run_records) (Memᴰ.head refl)

history-retains_example :
    Memᴰ ended (history (history new_worker one_run) (interrupts ∷ acks first_ref ∷ [])).records
    ⊎ (1 ≤ (history (history new_worker one_run) (interrupts ∷ acks first_ref ∷ [])).acknowledged)
history-retains_example =
    history-retains (history new_worker one_run) (interrupts ∷ acks first_ref ∷ []) ended
      (history-IsKept one_run) (unfold is_running in refl) ended_kept
