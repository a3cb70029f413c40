-- ===== src/Conn/Tests.antt =====
-- A connection on concrete moves.
use sessionbus.Base.{List, [], false, first, length, refl, rest, some, true, ◌++◌, ◌<◌, ◌∷◌, ◌≡◌}
use sessionbus.Conn.Finish.{finish_last}
use sessionbus.Conn.History.{
  Move, System, closed_by_owner, ended, finishes, history, initial, offered, owner_closes, reading,
  selecting, sends, step, take_frame, takes, write, writes,
}
use sessionbus.Conn.Outbox.{Goes, history-Goes, history_complete}
use sessionbus.Conn.Socket.{
  Bytes, Conn, close, close_outbox, finish, last_frame, offer, owner_closed, send, start,
}
use sessionbus.Conn.Writes.{IsPrefix, Taken, unanswered, whole, write_full, write_full-prefix}

abbrev frame_a : Bytes
frame_a = 1 ∷ 2 ∷ 3 ∷ []

abbrev frame_b : Bytes
frame_b = 4 ∷ []

-- A frame, the last frame, and the writer up to the end of the outbox.
abbrev last_moves : List Move
last_moves =
    sends frame_a
    ∷ finishes frame_b
    ∷ owner_closes
    ∷ sends frame_a
    ∷ takes
    ∷ writes
    ∷ takes
    ∷ writes
    ∷ takes
    ∷ []

abbrev last_system : System
last_system = record {
  conn = record {
    outbox = [];
    outbox_closed = true;
    inbox = [];
    is_done = false;
    finishing = true;
    fd_closed = true;
    bounded = true;
  };
  phase = ended;
  reader = reading;
  accepted = frame_a ∷ frame_b ∷ [];
  written = frame_a ∷ frame_b ∷ [];
}

last_run : history initial last_moves ≡ some last_system
unfolding history step initial start send finish offer offered last_frame close_outbox owner_closed
    closed_by_owner write take_frame close
last_run = refl

history-Goes_example : Goes (history initial last_moves)
history-Goes_example = history-Goes last_moves

history_complete_example : last_system.written ≡ last_system.accepted
history_complete_example = history_complete last_moves last_system last_run refl

abbrev finished : Conn
finished = record start {
  outbox = frame_b ∷ [];
  outbox_closed = true;
  finishing = true;
  bounded = true;
}

finish_first : finish initial.conn frame_b ≡ some (finished, true)
unfolding initial start finish offer last_frame close_outbox
finish_first = refl

abbrev after_finish : System
after_finish = record {
  conn = finished;
  phase = selecting;
  reader = reading;
  accepted = frame_b ∷ [];
  written = [];
}

finish_run : history initial (finishes frame_b ∷ sends frame_a ∷ []) ≡ some after_finish
unfolding history step initial start send finish offer offered last_frame close_outbox
finish_run = refl

finish_last_example : after_finish.accepted ≡ initial.accepted ++ frame_b ∷ []
finish_last_example =
    finish_last initial frame_b finished (sends frame_a ∷ []) after_finish finish_first finish_run

-- A socket that takes two bytes and then one.
abbrev partial : List Taken
partial = record { count = 2; failed = false } ∷ record { count = 1; failed = false } ∷ []

partial_write : write_full frame_a partial ≡ (frame_a, whole)
unfolding write_full first rest
partial_write = refl

write_full-prefix_example :
    IsPrefix (write_full frame_a partial).0 frame_a
    × ((write_full frame_a partial).1 ≡ whole → (write_full frame_a partial).0 ≡ frame_a)
    × ((write_full frame_a partial).1 ≡ unanswered → length partial < length frame_a)
write_full-prefix_example = write_full-prefix frame_a partial
