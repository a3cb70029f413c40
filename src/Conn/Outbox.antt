-- ===== src/Conn/Outbox.antt =====
-- conn.go: the frames of the outbox, and the channel operations that could panic.
use mathlib.Core.Bool.{false≢true}
use mathlib.Core.List.{append-nil, append_assoc}
use sessionbus.Base.{
  List, Option, [], ap, arith, false, if_cases, length, length-append, none, refl, some, subst, sym,
  true, ◌++◌, ◌<◌, ◌∙◌, ◌∷◌, ◌≡◌, ◌≤◌,
}
use sessionbus.Conn.History.{
  Move, Phase, Reader, System, broken, closed_by_owner, closes, deliver, ended, finishes, history,
  initial, offered, owner_closes, posts, quit, quits, read, read_fails, reading, reads, receives,
  reporting, reports, returned, selecting, sends, step, take_frame, takes, write, write_fails,
  writes, writing,
}
use sessionbus.Conn.Socket.{
  Bytes, Conn, Notice, close, close_outbox, closed, finish, framed, last_frame, offer, outbox_size,
  owner_closed, post, send, start,
}

-- The frame in the writer's hands, or the one that it could not write.
abbrev pub in_hand : Phase → List Bytes
in_hand selecting = []
in_hand (writing frame) = frame ∷ []
in_hand ended = []
in_hand quit = []
in_hand (broken frame) = frame ∷ []

-- The frames accepted are those written, in the writer's hands and in the outbox, in this order; the
-- outbox is bounded, and closed only when the connection is finishing; and a writer that has come to
-- its end left nothing.
pub record IsOrderly (s : System) : Type 0 where
  pub order : s.accepted ≡ s.written ++ in_hand s.phase ++ s.conn.outbox
  pub bound : length s.conn.outbox ≤ outbox_size
  pub last : s.conn.outbox_closed ≡ true → s.conn.finishing ≡ true
  pub drained : s.phase ≡ ended → s.conn.outbox ≡ []
  pub at_end : s.phase ≡ ended → s.conn.outbox_closed ≡ true

-- A frame that the outbox takes.
snoc-order :
    (w h o : List Bytes) (a : List Bytes) (f : Bytes)
    → a ≡ w ++ h ++ o
    → a ++ f ∷ [] ≡ w ++ h ++ (o ++ f ∷ [])
snoc-order w h o a f e = ap (λ x. x ++ f ∷ []) e ∙ append_assoc (w ++ h) o (f ∷ [])

initial-IsOrderly : IsOrderly initial
unfolding initial start
initial-IsOrderly = record {
  order = refl;
  bound = omega arith;
  last = λ e. absurd (ground arith);
  drained = λ e. refl;
  at_end = λ e. absurd (ground arith);
}

-- A step that does not panic and keeps the order.
abbrev pub Goes : Option System → Type 0
Goes none = ⊥
Goes (some t) = IsOrderly t

-- A frame that the open outbox takes, whatever else changes.
offered-IsOrderly :
    (s : System) (c : Conn) (f : Bytes)
    → IsOrderly s
    → c.outbox ≡ s.conn.outbox ++ f ∷ []
    → length s.conn.outbox < outbox_size
    → s.conn.outbox_closed ≡ false
    → (c.outbox_closed ≡ true → c.finishing ≡ true)
    → IsOrderly (record s { conn = c; accepted = s.accepted ++ f ∷ [] })
offered-IsOrderly s c f h e room open_ last = record {
  order =
      snoc-order s.written (in_hand s.phase) s.conn.outbox s.accepted f h.order
      ∙ ap (λ o. s.written ++ in_hand s.phase ++ o) (sym e);
  bound = rw e (omega (arith, length-append s.conn.outbox (f ∷ []), room));
  last = last;
  drained = λ p. absurd (false≢true (sym open_ ∙ h.at_end p));
  at_end = λ p. absurd (false≢true (sym open_ ∙ h.at_end p));
}

sends-Goes : (s : System) (f : Bytes) → IsOrderly s → Goes (offered s f (send s.conn f))
unfolding send offer offered close
sends-Goes s f h =
    ground
      (arith, offered-IsOrderly s (record (s.conn) { outbox = s.conn.outbox ++ f ∷ [] }) f h refl)

finishes-Goes : (s : System) (f : Bytes) → IsOrderly s → Goes (offered s f (finish s.conn f))
unfolding finish last_frame offer offered close close_outbox
finishes-Goes s f h = ground (
  arith,
  offered-IsOrderly s
      (record (s.conn) {
        outbox = s.conn.outbox ++ f ∷ [];
        outbox_closed = true;
        finishing = true;
        bounded = true;
      })
      f h refl,
)

owner_closes-Goes : (s : System) → IsOrderly s → Goes (closed_by_owner s (owner_closed s.conn))
unfolding owner_closed close_outbox closed_by_owner
owner_closes-Goes s h = ground arith

deliver-IsOrderly : (s : System) (n : Notice) (r : Reader) → IsOrderly s → IsOrderly (deliver s n r)
unfolding deliver
deliver-IsOrderly s n r h = ground arith

read-IsOrderly : (s : System) (r : Reader) (m : Move) → IsOrderly s → IsOrderly (read s r m)
unfolding read close
read-IsOrderly s reading (reads frame) h = deliver-IsOrderly s (framed frame) reading h
read-IsOrderly s reading read_fails h = record {
  order = h.order;
  bound = h.bound;
  last = h.last;
  drained = h.drained;
  at_end = h.at_end;
}
read-IsOrderly s reporting reports h = deliver-IsOrderly s closed returned h
read-IsOrderly s r m h = h

-- The order of the frames, the writer's place being known.
order_at :
    (s : System) (p : Phase)
    → s.phase ≡ p
    → IsOrderly s
    → s.accepted ≡ s.written ++ in_hand p ++ s.conn.outbox
order_at s p e h = subst (λ q. s.accepted ≡ s.written ++ in_hand q ++ s.conn.outbox) e h.order

-- The writer takes a frame, or finds the end of the outbox.
take_frame-IsOrderly :
    (s : System) (o : List Bytes)
    → s.conn.outbox ≡ o
    → s.phase ≡ selecting
    → IsOrderly s
    → IsOrderly (take_frame s o)
unfolding take_frame close
take_frame-IsOrderly s [] e p h =
    if_cases IsOrderly s.conn.outbox_closed
      (λ c. record {
        order = order_at s selecting p h;
        bound = h.bound;
        last = h.last;
        drained = λ _. e;
        at_end = λ _. c;
      })
      (λ _. h)
take_frame-IsOrderly s (f ∷ rest) e p h = record {
  order =
      order_at s selecting p h
      ∙ ap (λ o. s.written ++ [] ++ o) e
      ∙ ap (λ w. w ++ f ∷ rest) (append-nil s.written)
      ∙ sym (append_assoc s.written (f ∷ []) rest);
  bound = omega (arith, h.bound, ap (length {A = Bytes}) e);
  last = h.last;
  drained = λ q. absurd (ground arith);
  at_end = λ q. absurd (ground arith);
}

write-IsOrderly :
    (s : System) (p : Phase) (m : Move) → s.phase ≡ p → IsOrderly s → IsOrderly (write s p m)
unfolding write close
write-IsOrderly s selecting quits e h =
    if_cases IsOrderly s.conn.is_done
      (λ c. record {
        order = order_at s selecting e h;
        bound = h.bound;
        last = h.last;
        drained = λ q. absurd (ground arith);
        at_end = λ q. absurd (ground arith);
      })
      (λ _. h)
write-IsOrderly s selecting takes e h = take_frame-IsOrderly s s.conn.outbox refl e h
write-IsOrderly s (writing frame) writes e h = record {
  order =
      order_at s (writing frame) e h
      ∙ ap (λ w. w ++ s.conn.outbox) (sym (append-nil (s.written ++ frame ∷ [])));
  bound = h.bound;
  last = h.last;
  drained = λ q. absurd (ground arith);
  at_end = λ q. absurd (ground arith);
}
write-IsOrderly s (writing frame) write_fails e h = record {
  order = order_at s (writing frame) e h;
  bound = h.bound;
  last = h.last;
  drained = λ q. absurd (ground arith);
  at_end = λ q. absurd (ground arith);
}
write-IsOrderly s p m e h = h

-- The rest of the connection does not matter.
same-IsOrderly :
    (s : System) (c : Conn)
    → c.outbox ≡ s.conn.outbox
    → c.outbox_closed ≡ s.conn.outbox_closed
    → c.finishing ≡ s.conn.finishing
    → IsOrderly s
    → IsOrderly (record s { conn = c })
same-IsOrderly s c o x f h = record {
  order = h.order ∙ ap (λ q. s.written ++ in_hand s.phase ++ q) (sym o);
  bound = rw o h.bound;
  last = λ e. f ∙ h.last (sym x ∙ e);
  drained = λ e. o ∙ h.drained e;
  at_end = λ e. x ∙ h.at_end e;
}

step-Goes : (s : System) (m : Move) → IsOrderly s → Goes (step s m)
unfolding step
step-Goes s (sends frame) h = sends-Goes s frame h
step-Goes s (finishes frame) h = finishes-Goes s frame h
step-Goes s (posts event) h =
    same-IsOrderly s _ (unfold post in ground arith) (unfold post in ground arith)
      (unfold post in ground arith) h
step-Goes s owner_closes h = owner_closes-Goes s h
step-Goes s closes h = unfold close in same-IsOrderly s _ refl refl refl h
step-Goes s (reads frame) h = read-IsOrderly s s.reader (reads frame) h
step-Goes s read_fails h = read-IsOrderly s s.reader read_fails h
step-Goes s reports h = read-IsOrderly s s.reader reports h
step-Goes s receives h = same-IsOrderly s _ refl refl refl h
step-Goes s quits h = write-IsOrderly s s.phase quits refl h
step-Goes s takes h = write-IsOrderly s s.phase takes refl h
step-Goes s writes h = write-IsOrderly s s.phase writes refl h
step-Goes s write_fails h = write-IsOrderly s s.phase write_fails refl h

-- A step, then the rest of the moves.
rest-Goes :
    (ms : List Move) (o : Option System)
    → ((t : System) → IsOrderly t → Goes (history t ms))
    → Goes o
    → Goes (elim o [ none ↦ none | some t ↦ history t ms ])
rest-Goes ms none go g = g
rest-Goes ms (some t) go g = go t g

from-Goes : (s : System) (ms : List Move) → IsOrderly s → Goes (history s ms)
unfolding history
from-Goes s [] h = h
from-Goes s (m ∷ ms) h = rest-Goes ms (step s m) (λ t. from-Goes t ms) (step-Goes s m h)

-- Through every history of a connection, its owner never sends on the closed outbox and never closes
-- it twice, which would panic. The frames accepted are those written, in the writer's hands and in the
-- outbox, in order; the outbox holds at most 256; and it is closed only if the connection is finishing.
pub history-Goes : (ms : List Move) → Goes (history initial ms)
history-Goes ms = from-Goes initial ms initial-IsOrderly

-- If the writer has come to the end of the outbox, every frame accepted was written, in order.
pub history_complete :
    (ms : List Move) (t : System)
    → history initial ms ≡ some t
    → t.phase ≡ ended
    → t.written ≡ t.accepted
history_complete ms t e p =
    let h : IsOrderly t = subst Goes e (history-Goes ms) in
    sym (
      order_at t ended p h
      ∙ ap (λ o. t.written ++ [] ++ o) (h.drained p)
      ∙ append-nil (t.written ++ [])
      ∙ append-nil t.written)
