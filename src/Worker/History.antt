-- ===== src/Worker/History.antt =====
-- runs.go and worker.go: what a worker goes through, one request or one end of a run at a time.
use sessionbus.Base.{
  Bool, List, Option, Text, [], arith, if_cases, if◌then◌else◌, refl, subst, sym, ◌++◌, ◌∷◌, ◌≡◌,
}
use sessionbus.Protocol.{RunRef, TurnResult}
use sessionbus.Worker.Records.{
  Consecutive, IsKept, ack_run-IsKept, any_running, execute-IsKept, publish-IsKept,
}
use sessionbus.Worker.Runs.{
  Worker, ack_run, begin_close, enter, execute, finish_native, interrupt, leave, new_worker,
  open_session, publish,
}

pub data Move : Type 0 where
  -- the product opened a session; the name's `@host` suffix
  opens : Text → Text → Move
  executes : RunRef → Move
  -- the product's `Run` returns
  returns : Move
  -- `turn.ready` of the newest run is answered
  publishes : Option TurnResult → Text → Bool → Move
  acks : RunRef → Move
  interrupts : Move
  closes : Move
  enters : Move
  leaves : Move

-- A session is opened once, and a run is published while it is running.
unfoldable pub step : Worker → Move → Worker
step w (opens id suffix) = if w.opened then w else open_session w id suffix
step w (executes ref) = (execute w ref).0
step w returns = finish_native w
step w (publishes o failure valid) =
    if any_running w.records then publish w w.last_sequence o failure valid else w
step w (acks ref) = (ack_run w ref).0
step w interrupts = (interrupt w).0
step w closes = begin_close w
step w enters = (enter w).0
step w leaves = leave w

unfoldable pub history : Worker → List Move → Worker
history w [] = w
history w (m ∷ ms) = history (step w m) ms

new_worker-IsKept : IsKept new_worker
unfolding new_worker
new_worker-IsKept = record {
  consecutive = tt;
  counted = omega arith;
  retained = omega arith;
  slot = refl;
  word = omega arith;
  unopened = λ _. refl;
}

finish_native-IsKept : (w : Worker) → IsKept w → IsKept (finish_native w)
unfolding finish_native
finish_native-IsKept w k = ground arith

interrupt-IsKept : (w : Worker) → IsKept w → IsKept (interrupt w).0
unfolding interrupt
interrupt-IsKept w k = ground arith

begin_close-IsKept : (w : Worker) → IsKept w → IsKept (begin_close w)
unfolding begin_close
begin_close-IsKept w k = ground arith

enter-IsKept : (w : Worker) → IsKept w → IsKept (enter w).0
unfolding enter
enter-IsKept w k = ground arith

leave-IsKept : (w : Worker) → IsKept w → IsKept (leave w)
unfolding leave
leave-IsKept w k = ground arith

pub step-IsKept : (w : Worker) (m : Move) → IsKept w → IsKept (step w m)
unfolding step
step-IsKept w (opens id suffix) k =
    if_cases IsKept w.opened (λ _. k)
      λ f.
        let e : w.records ≡ [] = k.unopened f in
        unfold open_session in
        record {
          consecutive = subst (Consecutive (id ++ suffix) w.generation w.acknowledged) (sym e) tt;
          counted = k.counted;
          retained = k.retained;
          slot = k.slot;
          word = k.word;
          unopened = λ _. e;
        }
step-IsKept w (executes ref) k = execute-IsKept w ref k
step-IsKept w returns k = finish_native-IsKept w k
step-IsKept w (publishes o failure valid) k =
    if_cases IsKept (any_running w.records) (λ _. publish-IsKept o failure valid w k) (λ _. k)
step-IsKept w (acks ref) k = ack_run-IsKept w ref k
step-IsKept w interrupts k = interrupt-IsKept w k
step-IsKept w closes k = begin_close-IsKept w k
step-IsKept w enters k = enter-IsKept w k
step-IsKept w leaves k = leave-IsKept w k

from-IsKept : (w : Worker) (ms : List Move) → IsKept w → IsKept (history w ms)
unfolding history
from-IsKept w [] k = k
from-IsKept w (m ∷ ms) k = from-IsKept (step w m) ms (step-IsKept w m k)

-- Whatever requests a worker gets, and whenever its runs end, it keeps the records of the runs after
-- the last acknowledged one, in order, without holes and at most 256, each under its own canonical
-- identifier; only the newest may be running, and no run is running while the slot is empty.
pub history-IsKept : (ms : List Move) → IsKept (history new_worker ms)
history-IsKept ms = from-IsKept new_worker ms new_worker-IsKept
