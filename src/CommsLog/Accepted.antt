-- ===== src/CommsLog/Accepted.antt =====
-- commslog.go: which options `New` accepts.
use sessionbus.Base.{
  List, Text, [], all_of, arith, false, inl, inr, is_empty, length, ltb, none, not, refl, true, ℕ,
  ◌<◌, ◌||◌, ◌↔◌, ◌∷◌, ◌≡◌, ◌≤◌, ◌⊎◌,
}
use sessionbus.Base.Int.{ltb_ℤ, negsuc, pos, pos_part, ℤ}
use sessionbus.CommsLog.Events.{
  Mode, content, maximum_filters, maximum_label_bytes, metadata, off, other_mode,
}
use sessionbus.CommsLog.Options.{Options, records, valid_filters, validate_options}
use sessionbus.CommsLog.State.{new_logger}

-- The filter texts are at most 4096, none empty or longer than a label.
abbrev pub AllLabels : List Text → Type 0
AllLabels [] = Unit {0}
AllLabels (v ∷ vs) = (is_empty v ≡ false) × (length v ≤ maximum_label_bytes) × AllLabels vs

all_labels :
    (vs : List Text)
    → (all_of (λ value. not (is_empty value || ltb maximum_label_bytes (length value))) vs ≡ true)
      ↔ AllLabels vs
unfolding all_of
all_labels [] = (λ _. tt, λ _. refl)
all_labels (v ∷ vs) =
    let (to, from) = all_labels vs in
    (λ h. (ground arith, ground arith, to (ground arith)), λ h. ground (arith, h.0, h.1, from h.2))

-- The options of a log that can run: its logger keeps at least 4096 bytes in a file and in the queue.
pub record IsAccepted (o : Options) : Type 0 where
  pub mode : (o.mode ≡ metadata) ⊎ (o.mode ≡ content)
  pub path : is_empty o.path ≡ false
  pub host : (is_empty o.host ≡ false) × (length o.host ≤ maximum_label_bytes)
  pub incarnation : (is_empty o.incarnation ≡ false) × (length o.incarnation ≤ maximum_label_bytes)
  pub file_room : 4096 ≤ (new_logger o).max_file_bytes
  pub queue_room : 4096 ≤ (new_logger o).max_queue_bytes
  pub rotates : 1 ≤ pos_part o.max_files
  pub sessions : (length o.sessions ≤ maximum_filters) × AllLabels o.sessions
  pub groups : (length o.groups ≤ maximum_filters) × AllLabels o.groups

records-mode : (m : Mode) → records m ≡ true → (m ≡ metadata) ⊎ (m ≡ content)
records-mode metadata h = inl refl
records-mode content h = inr refl
records-mode off h = absurd (ground arith)
records-mode (other_mode t) h = absurd (ground arith)

valid_filters-exact :
    (vs : List Text) → (valid_filters vs ≡ true) ↔ ((length vs ≤ maximum_filters) × AllLabels vs)
unfolding valid_filters
valid_filters-exact vs =
    let (to, from) = all_labels vs in
    (λ h. (ground arith, to (ground arith)), λ h. ground (arith, h.0, from h.1))

at_least : (m : ℕ) (z : ℤ) → 0 < m → ltb_ℤ z (pos m) ≡ false → m ≤ pos_part z
at_least m (pos n) p h = ground arith
at_least m (negsuc n) p h = absurd (ground arith)

at_least-conv : (m : ℕ) (z : ℤ) → m ≤ pos_part z → 0 < m → ltb_ℤ z (pos m) ≡ false
at_least-conv m (pos n) h p = ground arith
at_least-conv m (negsuc n) h p = absurd (omega (arith, h, p))

-- `validateOptions` accepts exactly the options with a recording mode, a path, labels of at most 1024
-- bytes, at least 4096 bytes for a file and for the queue of the logger that `New` makes, at least
-- one file, and at most 4096 filters of each kind, each a label.
pub validate_options-exact : (o : Options) → (validate_options o ≡ none) ↔ IsAccepted o
unfolding validate_options
validate_options-exact o = (sound, complete)
  where
    sound : validate_options o ≡ none → IsAccepted o
    sound h = record {
      mode = records-mode o.mode (ground arith);
      path = ground arith;
      host = (ground arith, ground arith);
      incarnation = (ground arith, ground arith);
      file_room = unfold new_logger in at_least 4096 o.max_file_bytes (omega arith) (ground arith);
      queue_room = unfold new_logger in at_least 4096 o.queue_bytes (omega arith) (ground arith);
      rotates = at_least 1 o.max_files (omega arith) (ground arith);
      sessions = (valid_filters-exact o.sessions).0 (ground arith);
      groups = (valid_filters-exact o.groups).0 (ground arith);
    }

    complete : IsAccepted o → validate_options o ≡ none
    complete a =
        let f =
          at_least-conv 4096 o.max_file_bytes (unfold new_logger in a.file_room) (omega arith) in
        let q =
          at_least-conv 4096 o.queue_bytes (unfold new_logger in a.queue_room) (omega arith) in
        let r = at_least-conv 1 o.max_files a.rotates (omega arith) in
        let s = (valid_filters-exact o.sessions).1 a.sessions in
        let g = (valid_filters-exact o.groups).1 a.groups in
        ground (
          arith, f, q, r, s, g, a.mode, a.path, a.host.0, a.host.1, a.incarnation.0,
          a.incarnation.1,
        )
