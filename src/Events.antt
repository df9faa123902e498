-- ===== src/Events.antt =====
-- types.go: the values that travel between the goroutines.
use tssniff.Prelude.{ℕ, Bool, List}
use tssniff.Shm.Extents.{ShmExtent}

-- `CaptureRange`
pub record CaptureRange : Type 0 where
  pub seq : ℕ
  pub start : ℕ
  pub end : ℕ

-- `WriteEvent`
pub record WriteEvent : Type 0 where
  pub seq : ℕ
  pub offset : ℕ
  pub bytes : List ℕ
  pub staged : ShmExtent
  pub touches_mft : Bool

-- `ObservedWrite`
pub record ObservedWrite : Type 0 where
  pub event : WriteEvent
  pub mpegts : Bool
  pub captures : List CaptureRange

-- `PunchRequest`
pub record PunchRequest : Type 0 where
  pub capture_seq : ℕ
  pub start : ℕ
  pub end : ℕ
