-- ===== src/Conn/Socket.antt =====
-- conn.go: a connection and what its owner's loop calls. An operation that Go answers with a panic (a
-- send on a closed channel, a second close) is `none`.
use sessionbus.Base.{
  Bool, List, Option, [], false, if◌then◌else◌, length, ltb, none, some, true, ℕ, ◌++◌, ◌∷◌,
}

abbrev pub outbox_size : ℕ
outbox_size = 256

abbrev pub Bytes : Type 0
Bytes = List ℕ

-- What stands in the inbox: events of other goroutines, frames, and the end of the connection.
pub data Notice : Type 0 where
  posted framed : Bytes → Notice
  closed : Notice

pub record Conn : Type 0 where
  pub outbox : List Bytes
  -- `close(c.outbox)` has run
  pub outbox_closed : Bool
  -- the inbox is shared with the session; its capacity is also `outbox_size`
  pub inbox : List Notice
  -- the channel `done` is closed
  pub is_done : Bool
  pub finishing : Bool
  pub fd_closed : Bool
  -- the write deadline is set
  pub bounded : Bool

unfoldable pub start : Conn
start = record {
  outbox = [];
  outbox_closed = false;
  inbox = [];
  is_done = false;
  finishing = false;
  fd_closed = false;
  bounded = false;
}

unfoldable pub close : Conn → Conn
close c = record c { fd_closed = true }

-- `c.outbox <- frame` in a select with a default: whether it was sent.
unfoldable pub offer : Conn → Bytes → Option (Conn × Bool)
offer c frame =
    if c.outbox_closed
    then none
    else if ltb (length c.outbox) outbox_size
    then some (record c { outbox = c.outbox ++ frame ∷ [] }, true)
    else some (c, false)

unfoldable pub close_outbox : Conn → Option Conn
close_outbox c = if c.outbox_closed then none else some (record c { outbox_closed = true })

unfoldable pub post : Conn → Bytes → Conn × Bool
post c event =
    if c.is_done
    then (c, false)
    else if ltb (length c.inbox) outbox_size
    then (record c { inbox = c.inbox ++ posted event ∷ [] }, true)
    else (c, false)

unfoldable pub send : Conn → Bytes → Option (Conn × Bool)
unfolding offer close
send c frame =
    if c.finishing
    then some (c, false)
    else if c.is_done
    then some (c, false)
    else elim (offer c frame) [
      | none ↦ none
      | some r ↦ if r.1 then some (r.0, true) else some (close r.0, false)
    ]

-- The select of `Finish`, once the deadline is set.
unfoldable pub last_frame : Conn → Bytes → Option (Conn × Bool)
unfolding offer close close_outbox
last_frame c frame = elim (offer c frame) [
  | none ↦ none
  | some r ↦
      if r.1
      then elim (close_outbox r.0) [ none ↦ none | some d ↦ some (d, true) ]
      else some (close r.0, false)
]

unfoldable pub finish : Conn → Bytes → Option (Conn × Bool)
unfolding last_frame
finish c frame =
    if c.finishing
    then some (c, false)
    else if c.is_done
    then some (c, false)
    else last_frame (record c { finishing = true; bounded = true }) frame

unfoldable pub owner_closed : Conn → Option Conn
unfolding close_outbox
owner_closed c = if c.finishing then some c else close_outbox (record c { finishing = true })
