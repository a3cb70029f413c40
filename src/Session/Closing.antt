-- ===== src/Session/Closing.antt =====
-- lane.go: the close of a lane, and how a session stops.
use sessionbus.Base.{
  Bool, List, [], false, if◌then◌else◌, is_none, none, not, some, true, ℕ, ◌&&◌, ◌++◌, ◌+◌, ◌||◌,
  ◌∷◌,
}
use sessionbus.Protocol.{Code, busy}
use sessionbus.Session.Reservations.{stop_auto_close}
use sessionbus.Session.State.{
  Params, Request, Session, admitted, answer_routed, closing, is_close, is_execute, refusal,
}

unfoldable pub settle_deferred : Code → List Request → Session → Session
unfolding answer_routed
settle_deferred code [] s = record s { deferred = [] }
settle_deferred code (r ∷ rs) s = settle_deferred code rs (answer_routed s r (refusal code))

-- `recordStop`; `kill` is SIGKILL.
unfoldable pub record_stop : Session → Bool → Session
record_stop s kill = record s {
  stopping = true;
  stop_signal = if is_none s.stop_signal || kill then some kill else s.stop_signal;
  wire_closed = true;
}

unfoldable pub hard_stop : Session → Session
unfolding record_stop
hard_stop s = record_stop s true

unfoldable pub orderly_stop : Session → Session
unfolding record_stop
orderly_stop s =
    let t = record_stop s false in
    if not t.process_exited && not t.close_timer then record t { close_timer = true } else t

-- A pending call that a close waits for.
unfoldable pub blocks_close : List (ℕ × Request) → Bool
unfolding is_close is_execute
blocks_close [] = false
blocks_close ((n, r) ∷ rs) =
    (is_close r.method || is_execute r.method && r.collect) || blocks_close rs

unfoldable pub forgets : Params → Bool
forgets (closing forget) = forget
forgets _ = false

module _ (accepts : ℕ → Bool) where
  -- `RequestBytes` and `wire.Send`, for the request's identifier, as `accepts` answers them.
  unfoldable pub write_close : Session → Request → Session
  unfolding hard_stop admitted
  write_close s r =
      let n = s.next_out + 1 in
      if accepts n
      then record s {
        next_out = n;
        entry = admitted s.entry r.method;
        pending = s.pending ++ (n, r) ∷ [];
      }
      else hard_stop (record s { next_out = n })

  unfoldable pub write_deferred_close : Session → Session
  unfolding blocks_close write_close
  write_deferred_close s = elim s.close_call [
    | none ↦ s
    | some r ↦
        if s.closed || s.stopping then s else if blocks_close s.pending then s else write_close s r
  ]

  unfoldable pub begin_close : Session → Request → Session
  unfolding stop_auto_close settle_deferred forgets write_deferred_close
  begin_close s r =
      let t = settle_deferred busy s.deferred (stop_auto_close s) in
      write_deferred_close
        (record t { close_call = some r; close_timer = true; forget = forgets r.params })
