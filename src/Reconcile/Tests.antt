-- ===== src/Reconcile/Tests.antt =====
-- A run of the reconciler with a capture and one range of file data.
use tssniff.Prelude.{◌≡◌, true, List, [], ◌∷◌}
use tssniff.Ranges.{ByteRange}
use tssniff.Events.{CaptureRange}
use tssniff.Reconcile.{reconcile_capture}
use tssniff.Reconcile.Punches.{punched, punched-reconcile_capture}

abbrev late : CaptureRange
late = record { seq = 2; start = 20; end = 40 }

abbrev data_ranges : List ByteRange
data_ranges = record { start = 4; end = 30 } ∷ []

punched-reconcile_capture_example : punched 25 (reconcile_capture late data_ranges) ≡ true
punched-reconcile_capture_example = punched-reconcile_capture 25 late data_ranges
