-- ===== src/Worker/Acks.antt =====
-- runs.go: what `turn.ack` answers, and what it changes.
use mathlib.Core.List.{tail}
use sessionbus.Base.{List, [], if◌then◌else◌, leb, not, rest, ℕ, ◌&&◌, ◌+◌, ◌==◌, ◌∷◌, ◌≡◌}
use sessionbus.Protocol.{Code, busy, is_ok, no_error, unknown_session}
use sessionbus.Worker.Runs.{Record, Worker, is_running}

-- The answer by the number of the run, the number acknowledged, and the oldest record.
abbrev pub ack_answer : ℕ → ℕ → List Record → Code
ack_answer n acknowledged rs = if leb n acknowledged then no_error else elim rs [
  | [] ↦ unknown_session
  | r ∷ rest ↦ if n == acknowledged + 1 && not (is_running r.status.state) then no_error else busy
]

abbrev pub acked : ℕ → Worker → Worker
acked n w =
    if leb n w.acknowledged then w else record w { acknowledged = n; records = tail w.records }

-- What an acknowledgment does to a worker, for a code.
abbrev Effect : ℕ → Worker → Worker × Code → Type 0
Effect n w (v, code) =
    (code ≡ ack_answer n w.acknowledged w.records)
    × (v ≡ (if is_ok (ack_answer n w.acknowledged w.records) then acked n w else w))
