-- ===== src/CommsLog/Privacy.antt =====
-- commslog.go: message bodies in a log that does not record content.
use sessionbus.Base.{Option, Text, refl, ℕ, ◌≡◌, ◌≢◌}
use sessionbus.CommsLog.Events.{Event, Mode, content, metadata, off, other_mode}
use sessionbus.CommsLog.Queue.{emit, matches, redact}
use sessionbus.CommsLog.State.{Bytes, DiskRecord, Logger}

module _ (marshal : DiskRecord → Option Bytes) where
  -- Unless the log records content, the body of an event has no influence on the log: neither on
  -- the state after `Emit`, its queue included, nor on the result.
  pub emit_ignores_body :
      (l : Logger) (e : Event) (body : Text) (at : ℕ)
      → l.mode ≢ content
      → emit marshal l (record e { body = body }) at ≡ emit marshal l e at
  unfolding emit matches redact
  emit_ignores_body l e body at h = by_mode l.mode refl
    where
      by_mode :
          (m : Mode)
          → l.mode ≡ m
          → emit marshal l (record e { body = body }) at ≡ emit marshal l e at
      by_mode content eq = absurd (h eq)
      by_mode off eq = simp eq
      by_mode metadata eq = simp eq
      by_mode (other_mode t) eq = simp eq
