-- ===== src/CommsLog/Tiling.antt =====
-- commslog.go: which sequence numbers the lines of the log stand for, and in which order.
use sessionbus.Base.{
  Bool, List, Option, Option-cases, [], arith, if_cases, inl, inr, length, ltb, none, refl, some,
  subst, sym, u64, ℕ, ◌++◌, ◌+◌, ◌||◌, ◌∷◌, ◌≡◌,
}
use sessionbus.Base.Int.{pos, ◌+ℤ◌}
use sessionbus.CommsLog.Events.{Event}
use sessionbus.CommsLog.Gaps.{EncodesGaps, gap_line-raw}
use sessionbus.CommsLog.Queue.{
  add_gap, admit, disk_record, emit, emit_cases, gap_disk_record, gap_line, marshal_line,
  next_sequence, overflow, pending_line, push, push_gap, raw_length, record_invalid,
}
use sessionbus.CommsLog.State.{Bytes, DiskRecord, GapRecord, Logger, PendingGap, QueuedRecord}

module _ (marshal : DiskRecord → Option Bytes) where
  -- The line says what became of the numbers after `lo` up to `hi`: it is the event with the next
  -- number, or the gap record of all of them.
  pub data Covers (lo : ℕ) (raw : Bytes) (hi : ℕ) : Type 0 where
    event_line :
        (d : DiskRecord)
        → marshal_line marshal d ≡ some raw
        → d.gap ≡ none
        → d.sequence ≡ u64 (lo + 1)
        → hi ≡ d.sequence
        → Covers lo raw hi
    gap_covers :
        (d : DiskRecord) (g : GapRecord)
        → marshal_line marshal d ≡ some raw
        → d.gap ≡ some g
        → g.first_sequence ≡ u64 (lo + 1)
        → g.last_sequence ≡ hi
        → hi ≡ u64 (lo + g.count)
        → Covers lo raw hi

  -- The lines cover the numbers after `lo` up to `hi`, each once and in order.
  abbrev pub Tiles : ℕ → List Bytes → ℕ → Type 0
  Tiles lo [] hi = lo ≡ hi
  Tiles lo (raw ∷ lines) hi = (mid : ℕ) × Covers lo raw mid × Tiles mid lines hi

  abbrev pub TilesQueue : ℕ → List QueuedRecord → ℕ → Type 0
  TilesQueue lo [] hi = lo ≡ hi
  TilesQueue lo (r ∷ rs) hi =
      (mid : ℕ) × (raw : Bytes) × (r.raw ≡ some raw) × Covers lo raw mid × TilesQueue mid rs hi

  pub Tiles-snoc :
      (lo mid hi : ℕ) (lines : List Bytes) (raw : Bytes)
      → Tiles lo lines mid
      → Covers mid raw hi
      → Tiles lo (lines ++ raw ∷ []) hi
  Tiles-snoc lo mid hi [] raw t c = (hi, subst (λ n. Covers n raw hi) (sym t) c, refl)
  Tiles-snoc lo mid hi (l ∷ lines) raw (m, c', t) c = (m, c', Tiles-snoc m mid hi lines raw t c)

  TilesQueue-snoc :
      (lo mid hi : ℕ) (q : List QueuedRecord) (r : QueuedRecord) (raw : Bytes)
      → TilesQueue lo q mid
      → r.raw ≡ some raw
      → Covers mid raw hi
      → TilesQueue lo (q ++ r ∷ []) hi
  TilesQueue-snoc lo mid hi [] r raw t e c =
      (hi, raw, e, subst (λ n. Covers n raw hi) (sym t) c, refl)
  TilesQueue-snoc lo mid hi (x ∷ q) r raw (m, w, e', c', t) e c =
      (m, w, e', c', TilesQueue-snoc m mid hi q r raw t e c)

  -- The pending gap holds the numbers after `m` up to the last one taken.
  abbrev pub GapFrom : ℕ → Option PendingGap → ℕ → Type 0
  GapFrom m none last = m ≡ last
  GapFrom m (some g) last = (g.first ≡ u64 (m + 1)) × (g.last ≡ last) × (last ≡ u64 (m + g.count))

  -- What a logger still has to write: the numbers after `k`.
  pub record Holds (k : ℕ) (l : Logger) : Type 0 where
    pub upto : ℕ
    pub queued : TilesQueue k l.queue upto
    pub pending : GapFrom upto l.gap l.stats.last_sequence
    pub word : u64 l.stats.last_sequence ≡ l.stats.last_sequence
    pub word_upto : u64 upto ≡ upto

  -- The same, but for the number `n` just taken.
  record HoldsBut (k n : ℕ) (l : Logger) : Type 0 where
    upto : ℕ
    before : ℕ
    queued : TilesQueue k l.queue upto
    pending : GapFrom upto l.gap before
    word : u64 before ≡ before
    word_upto : u64 upto ≡ upto
    taken : n ≡ u64 (before + 1)
    last : l.stats.last_sequence ≡ n

  overflow-Holds : (k n at : ℕ) (l : Logger) → HoldsBut k n l → Holds k (overflow l n at).0
  unfolding overflow
  overflow-Holds k n at l h = record {
    upto = h.upto;
    queued = unfold add_gap in ground arith;
    pending = ground arith;
    word = ground arith;
    word_upto = h.word_upto;
  }

  pub gap_line-Covers :
      (l : Logger) (m last : ℕ) (g : PendingGap) (raw : Bytes)
      → GapFrom m (some g) last
      → (gap_line marshal l g).raw ≡ some raw
      → Covers m raw last
  unfolding gap_line
  gap_line-Covers l m last g raw p e =
      gap_covers (gap_disk_record l g) _ e (unfold gap_disk_record in refl) p.0 p.1 p.2

  push_gap-some :
      (l : Logger) (r : QueuedRecord) (raw : Bytes)
      → r.raw ≡ some raw
      → push_gap l r ≡ record l {
        queue = l.queue ++ r ∷ [];
        queue_bytes = l.queue_bytes +ℤ pos (raw_length r.raw);
        gap = none;
      }
  unfolding push_gap
  push_gap-some l r raw e = ground arith

  -- Room for the event: the queue covers all numbers before it, and no gap is pending.
  abbrev Ready : ℕ → ℕ → Logger → Type 0
  Ready k n l = HoldsBut k n l × (l.gap ≡ none)

  fill-Ready :
      (k n : ℕ) (l : Logger) (g : PendingGap) (raw : Bytes)
      → l.gap ≡ some g
      → (gap_line marshal l g).raw ≡ some raw
      → HoldsBut k n l
      → Ready k n (push_gap l (gap_line marshal l g))
  fill-Ready k n l g raw e f h =
      subst (Ready k n) (sym (push_gap-some l (gap_line marshal l g) raw f)) (
        record {
          upto = h.before;
          before = h.before;
          queued = TilesQueue-snoc k h.upto h.before l.queue (gap_line marshal l g) raw h.queued f (
              gap_line-Covers l h.upto h.before g raw
                (subst (λ o. GapFrom h.upto o h.before) e h.pending) f);
          pending = refl;
          word = h.word;
          word_upto = h.word;
          taken = h.taken;
          last = h.last;
        },
        refl,
      )

  push_gap-Ready :
      (k n : ℕ) (l : Logger)
      → EncodesGaps marshal
      → HoldsBut k n l
      → Ready k n (push_gap l (pending_line marshal l))
  push_gap-Ready k n l enc h = elim (Option-cases l.gap) [
    | inl e ↦ subst (Ready k n) {x = l} (unfold push_gap pending_line in ground arith) (h, e)
    | inr (g, e) ↦
        subst (λ r. Ready k n (push_gap l r)) {x = gap_line marshal l g}
          (unfold pending_line in ground arith)
          (elim (Option-cases (gap_line marshal l g).raw) [
            | inl f ↦ absurd (gap_line-raw marshal l g enc f)
            | inr (raw, f) ↦ fill-Ready k n l g raw e f h
          ])
  ]

  push-Holds :
      (k n : ℕ) (l : Logger) (d : DiskRecord) (raw : Bytes)
      → HoldsBut k n l
      → l.gap ≡ none
      → d.gap ≡ none
      → d.sequence ≡ n
      → marshal_line marshal d ≡ some raw
      → Holds k (push l raw)
  unfolding push
  push-Holds k n l d raw h e dg ds m =
      let same : h.upto ≡ h.before = subst (λ o. GapFrom h.upto o h.before) e h.pending in
      record {
        upto = n;
        queued =
            TilesQueue-snoc k h.upto n l.queue _ raw h.queued refl
              (event_line d m dg (ground arith) (sym ds));
        pending = subst (λ o. GapFrom n o l.stats.last_sequence) (sym e) (sym h.last);
        word = ground arith;
        word_upto = ground arith;
      }

  admit-Holds :
      (k n at : ℕ) (l : Logger) (d : DiskRecord)
      → EncodesGaps marshal
      → d.gap ≡ none
      → d.sequence ≡ n
      → HoldsBut k n l
      → Holds k (admit marshal l n at (marshal_line marshal d)).0
  admit-Holds k n at l d enc dg ds h = elim (Option-cases (marshal_line marshal d)) [
    | inl e ↦ rw e (unfold admit in overflow-Holds k n at l h)
    | inr (raw, e) ↦
        let ready : Ready k n (push_gap l (pending_line marshal l)) = push_gap-Ready k n l enc h in
        rw e (
          unfold admit in
          if_cases Q (ltb l.max_queue_bytes (length raw) || ltb l.max_file_bytes (length raw))
            (λ _. overflow-Holds k n at l h)
            λ _.
              if_cases Q _ (λ _. overflow-Holds k n at l h)
                λ _. push-Holds k n _ d raw ready.0 ready.1 dg ds e)
  ]
    where
      Q : Logger × Bool → Type 0
      Q r = Holds k r.0

  pub emit-Holds :
      (k : ℕ) (l : Logger) (e : Event) (at : ℕ)
      → EncodesGaps marshal
      → Holds k l
      → Holds k (emit marshal l e at).0
  emit-Holds k l e at enc h =
      emit_cases marshal (Holds k) l e at h
        (record {
          upto = h.upto;
          queued = unfold record_invalid in ground arith;
          pending = unfold record_invalid in ground arith;
          word = unfold record_invalid in ground arith;
          word_upto = h.word_upto;
        })
        λ _ _ ev.
          admit-Holds k _ at (next_sequence l) _ enc (unfold disk_record in refl)
            (unfold disk_record in refl)
            (record {
              upto = h.upto;
              before = l.stats.last_sequence;
              queued = h.queued;
              pending = h.pending;
              word = h.word;
              word_upto = h.word_upto;
              taken = refl;
              last = refl;
            })
