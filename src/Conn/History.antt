-- ===== src/Conn/History.antt =====
-- conn.go: the owner's loop beside the goroutines `read` and `write`, one step of one of them at a
-- time.
use sessionbus.Base.{
  Bool, List, Option, [], false, if◌then◌else◌, length, ltb, none, some, true, ◌++◌, ◌∷◌,
}
use sessionbus.Conn.Socket.{
  Bytes, Conn, Notice, close, closed, finish, framed, outbox_size, owner_closed, post, send, start,
}

-- Where the writer stands: at its select, in `writeFull`, or returned; a frame that it could not
-- write is lost.
pub data Phase : Type 0 where
  selecting : Phase
  writing : Bytes → Phase
  ended : Phase
  quit : Phase
  broken : Bytes → Phase

-- Where the reader stands: at `ReadSlice`, at its last send to the inbox, or returned.
pub data Reader : Type 0 where
  reading reporting returned : Reader

pub record System : Type 0 where
  pub conn : Conn
  pub phase : Phase
  pub reader : Reader
  -- the frames that `Send` and `Finish` took, and those written to the socket, oldest first
  pub accepted : List Bytes
  pub written : List Bytes

pub data Move : Type 0 where
  sends finishes posts : Bytes → Move
  owner_closes closes : Move
  -- the reader gets a frame, or an error; and reports the end
  reads : Bytes → Move
  read_fails reports : Move
  -- the session takes an event from the inbox
  receives : Move
  -- the writer's select on `done` or on the outbox, and the result of `writeFull`
  quits takes writes write_fails : Move

unfoldable pub initial : System
unfolding start
initial = record { conn = start; phase = selecting; reader = reading; accepted = []; written = [] }

-- What the owner's loop gets from `Send` or `Finish` on a frame.
unfoldable pub offered : System → Bytes → Option (Conn × Bool) → Option System
offered s frame none = none
offered s frame (some (c, false)) = some (record s { conn = c })
offered s frame (some (c, true)) = some (record s { conn = c; accepted = s.accepted ++ frame ∷ [] })

unfoldable pub closed_by_owner : System → Option Conn → Option System
closed_by_owner s none = none
closed_by_owner s (some c) = some (record s { conn = c })

-- `c.inbox <- notice` of the reader, which waits while the inbox is full.
unfoldable pub deliver : System → Notice → Reader → System
deliver s notice next =
    if ltb (length s.conn.inbox) outbox_size
    then record s { conn = record (s.conn) { inbox = s.conn.inbox ++ notice ∷ [] }; reader = next }
    else s

unfoldable pub read : System → Reader → Move → System
unfolding deliver close
read s reading (reads frame) = deliver s (framed frame) reading
read s reading read_fails = record s {
  conn = record (close s.conn) { is_done = true };
  reader = reporting;
}
read s reporting reports = deliver s closed returned
read s _ _ = s

abbrev pub received : List Notice → List Notice
received [] = []
received (n ∷ ns) = ns

-- A frame of the outbox, or its end.
unfoldable pub take_frame : System → List Bytes → System
unfolding close
take_frame s (frame ∷ rest) = record s {
  conn = record (s.conn) { outbox = rest };
  phase = writing frame;
}
take_frame s [] =
    if s.conn.outbox_closed then record s { conn = close s.conn; phase = ended } else s

unfoldable pub write : System → Phase → Move → System
unfolding take_frame close
write s selecting quits = if s.conn.is_done then record s { phase = quit } else s
write s selecting takes = take_frame s s.conn.outbox
write s (writing frame) writes = record s { phase = selecting; written = s.written ++ frame ∷ [] }
write s (writing frame) write_fails = record s { conn = close s.conn; phase = broken frame }
write s _ _ = s

-- A move that its goroutine cannot make changes nothing; `none` is a panic.
unfoldable pub step : System → Move → Option System
unfolding offered send finish closed_by_owner owner_closed post read write close
step s (sends frame) = offered s frame (send s.conn frame)
step s (finishes frame) = offered s frame (finish s.conn frame)
step s (posts event) = some (record s { conn = (post s.conn event).0 })
step s owner_closes = closed_by_owner s (owner_closed s.conn)
step s closes = some (record s { conn = close s.conn })
step s (reads frame) = some (read s s.reader (reads frame))
step s read_fails = some (read s s.reader read_fails)
step s reports = some (read s s.reader reports)
step s receives = some (record s { conn = record (s.conn) { inbox = received s.conn.inbox } })
step s quits = some (write s s.phase quits)
step s takes = some (write s s.phase takes)
step s writes = some (write s s.phase writes)
step s write_fails = some (write s s.phase write_fails)

unfoldable pub history : System → List Move → Option System
unfolding step
history s [] = some s
history s (m ∷ ms) = elim (step s m) [ none ↦ none | some t ↦ history t ms ]
