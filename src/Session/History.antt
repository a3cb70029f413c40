-- ===== src/Session/History.antt =====
-- session.go and lane.go: what a session goes through, one event of its loop at a time. The calls that
-- a Go map holds are taken in the order in which they were made, where the map's order is random.
use sessionbus.Base.{
  Bool, List, Option, Text, [], false, if◌then◌else◌, is_some, none, not, some, text_eq, true, ℕ,
  ◌&&◌, ◌++◌, ◌+◌, ◌==◌, ◌||◌, ◌∷◌,
}
use sessionbus.Protocol.{Code, RunRef, internal, not_connected}
use sessionbus.Session.Closing.{begin_close, hard_stop, orderly_stop, settle_deferred}
use sessionbus.Session.Issue.{issue}
use sessionbus.Session.Reservations.{stop_auto_close}
use sessionbus.Session.Responses.{
  Pending, Response, hang_up, receive_response, reject_frame, turn_ready,
}
use sessionbus.Session.State.{
  Entry, Method, Params, Request, Session, answer_routed, closing, finish_run, is_deliver, refusal,
  result, session_close, turn_run,
}

-- A request as the daemon's handlers make it.
unfoldable pub routed : ℕ → ℕ → Method → Params → Bool → Bool → Request
routed ticket destination method params trace_copy completion = record {
  ticket = ticket;
  scheduled = false;
  trace_copy = trace_copy;
  completion = completion;
  run_id = [];
  collect = false;
  destination = destination;
  method = method;
  params = params;
}

unfoldable pub is_run : Method → Bool
is_run turn_run = true
is_run _ = false

-- The call is the close itself, by its `reply` channel.
unfoldable pub is_closing_call : Option Request → Request → Bool
is_closing_call none r = false
is_closing_call (some c) r = not r.scheduled && r.ticket == c.ticket

-- The loop of `settlePending`.
unfoldable pub settle_calls : Code → Pending → Session → Session
unfolding is_run finish_run is_closing_call answer_routed
settle_calls code [] s = record s { pending = [] }
settle_calls code ((n, r) ∷ rs) s =
    let t = if is_run r.method then finish_run s else s in
    settle_calls code rs
      (if is_closing_call t.close_call r then t else answer_routed t r (refusal code))

unfoldable pub settle_pending : Session → Code → Session
unfolding settle_deferred settle_calls
settle_pending s code = let t = settle_deferred code s.deferred s in settle_calls code t.pending t

-- `directory.detach`.
unfoldable pub detach : Session → Session
detach s =
    let e = s.entry in
    if e.attached
    then record s {
      entry = record e {
        attached = false;
        running = false;
        listed = e.listed && not e.peer;
        claimed = e.claimed || not e.peer;
      };
    }
    else s

unfoldable pub connection_closed : Session → Session
unfolding stop_auto_close detach settle_pending
connection_closed s =
    if s.closed
    then s
    else settle_pending
        (detach (stop_auto_close (record s { stopping = true; closed = true; wire_closed = true })))
        not_connected

-- `handleEvent` on the end of the connection, for a committed lane or a peer.
unfoldable pub wire_ended : Session → Session
unfolding connection_closed orderly_stop
wire_ended s = let t = connection_closed s in if t.entry.peer then t else orderly_stop t

unfoldable pub process_ended : Session → Session
process_ended s = if s.process_exited then s else record s {
  process_exited = true;
  close_timer = s.close_timer || s.committed && not s.closed;
}

-- `finishLane` of a committed lane; `deleted` says that its row was removed.
unfoldable pub finish_lane : Session → Bool → Session
unfolding stop_auto_close
finish_lane s deleted =
    let e = s.entry in
    let t = record (stop_auto_close s) {
      finished = true;
      close_timer = false;
      forget = s.forget && deleted;
      entry = record e {
        attached = false;
        running = e.running && not e.attached;
        claimed = false;
        listed = e.listed && not (s.forget && deleted);
      };
    } in
    elim s.close_call [
      | none ↦ t
      | some r ↦ record t {
        answers =
            s.answers
            ++ (r.ticket, if s.forget && not deleted then refusal internal else result) ∷ [];
      }
    ]

-- The end of `run`.
unfoldable pub finish : Session → Bool → Session
unfolding finish_lane
finish s deleted =
    if s.closed && (s.entry.peer || s.process_exited)
    then (if s.entry.peer then record s { finished = true } else finish_lane s deleted)
    else s

pub data Move : Type 0 where
  routes : (ticket destination : ℕ) → Method → Params → (trace_copy completion : Bool) → Move
  responds : ℕ → Response → Move
  -- `turn.ready`: the run, whether it is done, the clock, and whether the answer was written
  readies : RunRef → Bool → ℕ → Bool → Move
  -- the deadline passes, or the lane's owner has ended
  expires : ℕ → Move
  owner_ends : ℕ → Move
  ends exits : Move
  -- the close timer fires
  kills : Move
  -- the loop returns, once it awaits no reply and has drained its inbox, which is left to the history;
  -- for a lane, whether its row was deleted
  finishes : Bool → Move
  -- another session takes over the entry of a peer; the event that tells this session
  displaced supersedes : Move
  -- a further `session.hello`: the number of the entry that it would make, the identifier, whether the
  -- request is valid, whether `installPeer` accepts it, and whether the answer was written
  hellos : ℕ → Text → (valid accepted sent : Bool) → Move
  -- a frame that is refused, and a request of the session's that is answered with a result or an error
  -- (at once, or by a `replyEvent`): whether what the daemon sends was written
  rejects replied : Bool → Move
  shuts_down : Move

-- The test of `routeLocked` on the method, which does not change while the request is on its way.
unfoldable pub posts : Entry → Method → Bool
unfolding is_deliver
posts e m = not (e.peer && not (is_deliver m))

unfoldable pub posted : Session → Move → Bool
unfolding posts
posted s (routes ticket destination method params trace_copy completion) = posts s.entry method
posted s _ = true

-- The part of `installPeer` that takes a peer's entry from its session.
unfoldable pub displace : Session → Session
displace s =
    if s.entry.peer && s.entry.listed
    then record s { entry = record (s.entry) { attached = false; running = false; listed = false } }
    else s

-- `peerHello` with a new identity: the calls made to the old one are settled.
unfoldable pub rename : Session → ℕ → Text → Session
unfolding settle_pending
rename s number id =
    let t = settle_pending s not_connected in
    record t {
      entry = record (t.entry) {
        number = number;
        session_id = id;
        claimed = false;
        running = false;
        attached = true;
        listed = true;
      };
    }

unfoldable pub peer_hello : Session → ℕ → Text → Bool → Bool → Bool → Session
unfolding reject_frame rename hang_up
peer_hello s number id valid accepted sent =
    if not s.entry.peer || not valid || not s.entry.attached || not accepted
    then reject_frame s sent
    else let t = if text_eq id s.entry.session_id then s else rename s number id in
      if sent then t else hang_up t

module _ (accepts : ℕ → Bool) where
  unfoldable pub supersede : Session → Session
  supersede s = if s.stopping then s else record s {
    stopping = true;
    next_out = s.next_out + 1;
    wire_closed = s.wire_closed || not (accepts (s.next_out + 1));
  }

  -- `policyClose`, with the channel that its request makes.
  unfoldable pub policy_close : Session → ℕ → Session
  unfolding stop_auto_close begin_close routed
  policy_close s ticket =
      if s.stopping || is_some s.close_call || not s.committed
      then s
      else begin_close accepts (stop_auto_close s)
          (routed ticket s.entry.number session_close (closing false) false false)

module _ (accepts : ℕ → Bool) (fresh : Text) where
  unfoldable pub route : Session → Request → Session
  unfolding answer_routed issue
  route s r =
      if s.stopping || not (r.destination == s.entry.number) || not s.entry.peer && not s.committed
      then answer_routed s r (refusal not_connected)
      else issue accepts fresh s r

  -- Frames are read only while the session is not stopping; nothing happens once the loop returned. The
  -- requests that the session makes, but for `turn.ready` and `session.hello`, change nothing of what is
  -- held here but by their answers.
  unfoldable pub event : Session → Move → Session
  unfolding route routed receive_response turn_ready policy_close wire_ended process_ended hard_stop
      finish displace supersede peer_hello reject_frame hang_up orderly_stop
  event s (routes ticket destination method params trace_copy completion) =
      route s (routed ticket destination method params trace_copy completion)
  event s (responds id f) = if s.stopping then s else receive_response accepts fresh s id f
  event s (readies ref ended now sent) =
      if s.stopping then s else turn_ready accepts fresh s ref ended now sent
  event s (expires ticket) =
      if s.auto_close then policy_close accepts (record s { auto_close = false }) ticket else s
  event s (owner_ends ticket) =
      if s.entry.policy.persistent then s else policy_close accepts s ticket
  event s ends = wire_ended s
  event s exits = process_ended s
  event s kills = if s.close_timer then hard_stop (record s { close_timer = false }) else s
  event s (finishes deleted) = finish s deleted
  event s displaced = displace s
  event s supersedes = supersede accepts s
  event s (hellos number id valid accepted sent) =
      if s.stopping then s else peer_hello s number id valid accepted sent
  event s (rejects sent) = if s.stopping then s else reject_frame s sent
  event s (replied sent) = if sent then s else hang_up s
  event s shuts_down = orderly_stop s

  unfoldable pub step : Session → Move → Session
  unfolding event posted
  step s m = if s.finished || not (posted s m) then s else event s m

  unfoldable pub history : Session → List Move → Session
  unfolding step
  history s [] = s
  history s (m ∷ ms) = history (step s m) ms
