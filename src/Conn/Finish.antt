-- ===== src/Conn/Finish.antt =====
-- conn.go: `Finish` takes the last frame of a connection.
use sessionbus.Base.{
  List, Option, [], ap, arith, none, refl, some, subst, sym, true, ◌++◌, ◌∙◌, ◌∷◌, ◌≡◌,
}
use sessionbus.Conn.History.{
  Move, Phase, Reader, System, closed_by_owner, closes, deliver, finishes, history, offered,
  owner_closes, posts, quits, read, read_fails, reading, reads, receives, reporting, reports,
  selecting, sends, step, take_frame, takes, write, write_fails, writes, writing,
}
use sessionbus.Conn.Socket.{
  Bytes, Conn, close, close_outbox, finish, last_frame, offer, owner_closed, post, send,
}

-- A connection that is finishing accepts nothing more.
record IsFinishing (a : List Bytes) (s : System) : Type 0 where
  accepted : s.accepted ≡ a
  finishing : s.conn.finishing ≡ true

abbrev Stays : List Bytes → Option System → Type 0
Stays a none = Unit {0}
Stays a (some t) = IsFinishing a t

read-IsFinishing :
    (a : List Bytes) (s : System) (r : Reader) (m : Move)
    → IsFinishing a s
    → IsFinishing a (read s r m)
unfolding read deliver close
read-IsFinishing a s reading (reads frame) h = ground arith
read-IsFinishing a s reading read_fails h = record {
  accepted = h.accepted;
  finishing = h.finishing;
}
read-IsFinishing a s reporting reports h = ground arith
read-IsFinishing a s r m h = h

take_frame-IsFinishing :
    (a : List Bytes) (s : System) (o : List Bytes)
    → IsFinishing a s
    → IsFinishing a (take_frame s o)
unfolding take_frame close
take_frame-IsFinishing a s [] h = ground arith
take_frame-IsFinishing a s (f ∷ o) h = record { accepted = h.accepted; finishing = h.finishing }

write-IsFinishing :
    (a : List Bytes) (s : System) (p : Phase) (m : Move)
    → IsFinishing a s
    → IsFinishing a (write s p m)
unfolding write close
write-IsFinishing a s selecting quits h = ground arith
write-IsFinishing a s selecting takes h = take_frame-IsFinishing a s s.conn.outbox h
write-IsFinishing a s (writing f) writes h = record {
  accepted = h.accepted;
  finishing = h.finishing;
}
write-IsFinishing a s (writing f) write_fails h = record {
  accepted = h.accepted;
  finishing = h.finishing;
}
write-IsFinishing a s p m h = h

step-Stays : (a : List Bytes) (s : System) (m : Move) → IsFinishing a s → Stays a (step s m)
unfolding step offered send finish owner_closed closed_by_owner post close
step-Stays a s (sends f) h = ground arith
step-Stays a s (finishes f) h = ground arith
step-Stays a s (posts f) h = ground arith
step-Stays a s owner_closes h = ground arith
step-Stays a s closes h = record { accepted = h.accepted; finishing = h.finishing }
step-Stays a s (reads f) h = read-IsFinishing a s s.reader (reads f) h
step-Stays a s read_fails h = read-IsFinishing a s s.reader read_fails h
step-Stays a s reports h = read-IsFinishing a s s.reader reports h
step-Stays a s receives h = record { accepted = h.accepted; finishing = h.finishing }
step-Stays a s quits h = write-IsFinishing a s s.phase quits h
step-Stays a s takes h = write-IsFinishing a s s.phase takes h
step-Stays a s writes h = write-IsFinishing a s s.phase writes h
step-Stays a s write_fails h = write-IsFinishing a s s.phase write_fails h

rest-Stays :
    (a : List Bytes) (ms : List Move) (o : Option System)
    → ((t : System) → IsFinishing a t → Stays a (history t ms))
    → Stays a o
    → Stays a (elim o [ none ↦ none | some t ↦ history t ms ])
rest-Stays a ms none go g = tt
rest-Stays a ms (some t) go g = go t g

from-Stays :
    (a : List Bytes) (s : System) (ms : List Move) → IsFinishing a s → Stays a (history s ms)
unfolding history
from-Stays a s [] h = h
from-Stays a s (m ∷ ms) h = rest-Stays a ms (step s m) (λ t. from-Stays a t ms) (step-Stays a s m h)

finish-finishing : (c d : Conn) (f : Bytes) → finish c f ≡ some (d, true) → d.finishing ≡ true
unfolding finish last_frame offer close_outbox close
finish-finishing c d f h = ground arith

-- A frame that `Finish` accepts is the last frame of the connection: whatever is called later, and
-- whatever the reader and the writer do, no frame is accepted after it.
pub finish_last :
    (s : System) (f : Bytes) (c : Conn) (ms : List Move) (t : System)
    → finish s.conn f ≡ some (c, true)
    → history s (finishes f ∷ ms) ≡ some t
    → t.accepted ≡ s.accepted ++ f ∷ []
unfolding history step
finish_last s f c ms t e r =
    let a = s.accepted ++ f ∷ [] in
    let stepped : offered s f (finish s.conn f) ≡ some (record s { conn = c; accepted = a }) =
      ap (offered s f) e ∙ (unfold offered in refl) in
    let stays : Stays a
        (elim (offered s f (finish s.conn f)) [ none ↦ none | some t ↦ history t ms ]) =
      rest-Stays a ms (offered s f (finish s.conn f)) (λ t. from-Stays a t ms)
        (subst (Stays a) (sym stepped)
          (record { accepted = refl; finishing = finish-finishing s.conn c f e })) in
    (subst (Stays a) r stays).accepted
