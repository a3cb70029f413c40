-- ===== src/CommsLog/Gaps.antt =====
-- commslog.go: the encoding of gap records.
use sessionbus.Base.{Option, arith, none, refl, some, ◌≡◌, ◌≢◌}
use sessionbus.CommsLog.Queue.{gap_disk_record, gap_line}
use sessionbus.CommsLog.State.{Bytes, DiskRecord, GapRecord, Logger, PendingGap}

module _ (marshal : DiskRecord → Option Bytes) where
  -- JSON encoding of a gap record, which holds texts, numbers and a time, does not fail.
  abbrev pub EncodesGaps : Type 0
  EncodesGaps = (d : DiskRecord) (g : GapRecord) → d.gap ≡ some g → marshal d ≢ none

  pub gap_line-raw : (l : Logger) (g : PendingGap) → EncodesGaps → (gap_line marshal l g).raw ≢ none
  unfolding gap_line
  gap_line-raw l g enc e =
      enc (gap_disk_record l g) _ (unfold gap_disk_record in refl) (ground arith)
