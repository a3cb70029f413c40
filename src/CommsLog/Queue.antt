-- ===== src/CommsLog/Queue.antt =====
-- commslog.go: `Emit` with its byte-bounded queue and gap records, `take`, `fail`
-- and the first half of `Close`. JSON encoding is the parameter `marshal`; the clock's reading and
-- the results of the sink are arguments. Lengths of Go slices do not wrap; the counters do.
use sessionbus.Base.{
  Bool, Bool-cases, List, Option, [], any_of, arith, codes, contains, false, if_cases,
  if◌then◌else◌, inl, inr, is_empty, is_some, length, ltb, none, not, refl, some, subst, sym, true,
  u64, ℕ, ◌&&◌, ◌++◌, ◌+◌, ◌||◌, ◌∷◌, ◌≡◌,
}
use sessionbus.Base.Int.{ltb_ℤ, pos, ◌+ℤ◌}
use sessionbus.CommsLog.Events.{
  Endpoint, Event, Mode, content, gap_type, metadata, off, other_mode, valid_endpoint, valid_event,
}
use sessionbus.CommsLog.Options.{records}
use sessionbus.CommsLog.State.{Bytes, DiskRecord, Err, Logger, PendingGap, QueuedRecord}

unfoldable pub matches_endpoint : Logger → Option Endpoint → Bool
matches_endpoint l none = false
matches_endpoint l (some e) =
    contains l.sessions e.session_id || any_of (λ group. contains l.groups group) e.groups

unfoldable pub matches : Logger → Event → Bool
unfolding matches_endpoint
matches l e =
    if is_empty l.sessions && is_empty l.groups
    then true
    else matches_endpoint l e.from || matches_endpoint l e.to

unfoldable pub record_invalid : Logger → Logger
record_invalid l =
    if not l.closing && not (is_some l.err)
    then record l { stats = record (l.stats) { lost_invalid = u64 (l.stats.lost_invalid + 1) } }
    else l

unfoldable pub add_gap : Logger → ℕ → ℕ → Logger
add_gap l sequence at = elim l.gap [
  | none ↦ record l {
    gap = some (record { first = sequence; last = sequence; count = 1; at = at });
  }
  | some g ↦ record l { gap = some (record g { last = sequence; count = u64 (g.count + 1) }) }
]

-- `l.addGap(sequence, at); l.stats.LostOverflow++; return false`.
unfoldable pub overflow : Logger → ℕ → ℕ → Logger × Bool
unfolding add_gap
overflow l sequence at =
    let m = add_gap l sequence at in
    (
      record m { stats = record (m.stats) { lost_overflow = u64 (m.stats.lost_overflow + 1) } },
      false,
    )

unfoldable pub wake : Logger → Logger
wake l = record l { notify = true }

unfoldable pub disk_record : Logger → ℕ → ℕ → Event → DiskRecord
disk_record l sequence at e = record {
  schema = codes "sessionbus.comms.v1";
  host = l.host;
  incarnation = l.incarnation;
  sequence = sequence;
  utc = at;
  type = e.type;
  method = e.method;
  message_id = e.message_id;
  delivery_id = e.delivery_id;
  run_id = e.run_id;
  error_code = e.error_code;
  state = e.state;
  outcome = e.outcome;
  from = e.from;
  to = e.to;
  receipt = e.receipt;
  body = e.body;
  gap = none;
}

unfoldable pub gap_disk_record : Logger → PendingGap → DiskRecord
gap_disk_record l g = record {
  schema = codes "sessionbus.comms.v1";
  host = l.host;
  incarnation = l.incarnation;
  sequence = g.last;
  utc = g.at;
  type = gap_type;
  method = [];
  message_id = [];
  delivery_id = [];
  run_id = [];
  error_code = 0;
  state = [];
  outcome = [];
  from = none;
  to = none;
  receipt = none;
  body = [];
  gap = some (record {
    first_sequence = g.first;
    last_sequence = g.last;
    count = g.count;
    cause = codes "queue_overflow";
  });
}

abbrev pub no_record : QueuedRecord
no_record = record { raw = none; events = 0; is_gap = false }

abbrev pub raw_length : Option Bytes → ℕ
raw_length none = 0
raw_length (some raw) = length raw

-- `event.Body = ""` unless the log records content.
unfoldable pub redact : Mode → Event → Event
redact content e = e
redact off e = record e { body = [] }
redact metadata e = record e { body = [] }
redact (other_mode t) e = record e { body = [] }

unfoldable pub push_gap : Logger → QueuedRecord → Logger
push_gap l r =
    if is_some r.raw
    then record l {
      queue = l.queue ++ r ∷ [];
      queue_bytes = l.queue_bytes +ℤ pos (raw_length r.raw);
      gap = none;
    }
    else l

unfoldable pub push : Logger → Bytes → Logger
unfolding wake
push l raw = wake (record l {
  queue = l.queue ++ record { raw = some raw; events = 1; is_gap = false } ∷ [];
  queue_bytes = l.queue_bytes +ℤ pos (length raw);
})

-- `l.stats.LastSequence++`.
abbrev pub next_sequence : Logger → Logger
next_sequence l = record l {
  stats = record (l.stats) { last_sequence = u64 (l.stats.last_sequence + 1) };
}

module _ (marshal : DiskRecord → Option Bytes) where
  unfoldable pub marshal_line : DiskRecord → Option Bytes
  marshal_line r = elim (marshal r) [ none ↦ none | some raw ↦ some (raw ++ 10 ∷ []) ]

  unfoldable pub gap_line : Logger → PendingGap → QueuedRecord
  unfolding marshal_line gap_disk_record
  gap_line l g = record { raw = marshal_line (gap_disk_record l g); events = 0; is_gap = true }

  unfoldable pub pending_line : Logger → QueuedRecord
  unfolding gap_line
  pending_line l = elim l.gap [ none ↦ no_record | some g ↦ gap_line l g ]

  -- The bound on the queue, then the two appends.
  unfoldable pub enqueue : Logger → ℕ → ℕ → Bytes → QueuedRecord → Logger × Bool
  unfolding overflow push_gap push ◌+ℤ◌
  enqueue l sequence at raw gap =
      if ltb_ℤ (pos l.max_queue_bytes) (l.queue_bytes +ℤ pos (length raw + raw_length gap.raw))
        || ltb l.max_file_bytes (raw_length gap.raw)
      then overflow l sequence at
      else (push (push_gap l gap) raw, true)

  -- The part of `Emit` that runs under the mutex, once the sequence number is taken.
  unfoldable pub admit : Logger → ℕ → ℕ → Option Bytes → Logger × Bool
  unfolding overflow pending_line enqueue
  admit l sequence at none = overflow l sequence at
  admit l sequence at (some raw) =
      if ltb l.max_queue_bytes (length raw) || ltb l.max_file_bytes (length raw)
      then overflow l sequence at
      else enqueue l sequence at raw (pending_line l)

  unfoldable pub emit : Logger → Event → ℕ → Logger × Bool
  emit l event at =
      if not (records l.mode)
      then (l, false)
      else if not (matches l event)
      then (l, false)
      else if not (valid_endpoint event.from) || not (valid_endpoint event.to)
      then (record_invalid l, false)
      else if not (valid_event (redact l.mode event))
      then (record_invalid l, false)
      else if l.closing || is_some l.err
      then (l, false)
      else let m = next_sequence l in
        admit m m.stats.last_sequence at
          (marshal_line (disk_record m m.stats.last_sequence at (redact l.mode event)))

  -- The next record for the writer, and whether the log is finished.
  unfoldable pub take : Logger → Logger × QueuedRecord × Bool
  unfolding gap_line
  take l = elim l.queue [
    | r ∷ rest ↦ (record l { queue = rest }, r, false)
    | [] ↦ if not l.closing then (l, no_record, false) else elim l.gap [
      | some g ↦ (record l { gap = none }, gap_line l g, false)
      | none ↦ (l, no_record, true)
    ]
  ]

  -- The ways out of `emit`: unchanged, counted as invalid, or on to `admit`.
  pub emit_cases {ℓ} :
      (P : Logger → Type ℓ) (l : Logger) (event : Event) (at : ℕ)
      → P l
      → P (record_invalid l)
      → (l.closing ≡ false
          → l.err ≡ none
          → let m = next_sequence l in
            (e : Event)
            → P
                (admit m m.stats.last_sequence at
                  (marshal_line (disk_record m m.stats.last_sequence at e))).0)
      → P (emit l event at).0
  unfolding emit
  emit_cases P l event at same invalid next =
      if_cases Q (not (records l.mode)) (λ _. same)
        λ _.
          if_cases Q (not (matches l event)) (λ _. same)
            λ _.
              if_cases Q (not (valid_endpoint event.from) || not (valid_endpoint event.to))
                (λ _. invalid)
                λ _.
                  if_cases Q (not (valid_event (redact l.mode event))) (λ _. invalid)
                    λ _.
                      if_cases Q (l.closing || is_some l.err) (λ _. same)
                        λ live. next (ground arith) (ground arith) (redact l.mode event)
    where
      Q : Logger × Bool → Type ℓ
      Q r = P r.0

  -- The ways out of `take`.
  pub take_cases {ℓ} :
      (P : Logger × QueuedRecord × Bool → Type ℓ) (l : Logger)
      → ((r : QueuedRecord) (q : List QueuedRecord)
          → l.queue ≡ r ∷ q
          → P (record l { queue = q }, r, false))
      → (l.queue ≡ [] → l.closing ≡ false → P (l, no_record, false))
      → ((g : PendingGap)
          → l.queue ≡ []
          → l.closing ≡ true
          → l.gap ≡ some g
          → P (record l { gap = none }, gap_line l g, false))
      → (l.queue ≡ [] → l.closing ≡ true → l.gap ≡ none → P (l, no_record, true))
      → P (take l)
  take_cases P l queued wait flush done = go l.queue refl
    where
      last : (o : Option PendingGap) → l.gap ≡ o → l.queue ≡ [] → l.closing ≡ true → P (take l)
      last none e q c =
          subst P {x = (l, no_record, true)} (sym (unfold take in ground arith)) (done q c e)
      last (some g) e q c =
          subst P {x = (record l { gap = none }, gap_line l g, false)}
            (sym (unfold take in ground arith)) (flush g q c e)

      go : (q : List QueuedRecord) → l.queue ≡ q → P (take l)
      go (r ∷ q) e =
          subst P {x = (record l { queue = q }, r, false)} (sym (unfold take in ground arith))
            (queued r q e)
      go [] e = elim (Bool-cases l.closing) [
        | inl c ↦ last l.gap refl e c
        | inr c ↦ subst P {x = (l, no_record, false)} (sym (unfold take in ground arith)) (wait e c)
      ]

-- The loop of `fail` over the queue.
unfoldable pub add_events : ℕ → List QueuedRecord → ℕ
add_events n [] = n
add_events n (r ∷ rs) = add_events (u64 (n + r.events)) rs

-- Returns also the error that the callback is given, if it is called.
unfoldable pub fail : Logger → Option Err → ℕ → Logger × Option Err
unfolding add_events
fail l none current = (l, none)
fail l (some e) current = if is_some l.err then (l, none) else (
  record l {
    err = some e;
    closing = true;
    stats = record (l.stats) {
      write_errors = u64 (l.stats.write_errors + 1);
      lost_write = add_events (u64 (l.stats.lost_write + current)) l.queue;
    };
    queue = [];
    queue_bytes = pos 0;
    gap = none;
  },
  if l.on_error then some e else none,
)

-- `Close` up to its wait for the writer.
unfoldable pub close : Logger → Logger
unfolding wake
close l =
    if not (records l.mode)
    then l
    else if not l.closing
    then wake (record l { closing = true })
    else l
