-- ===== src/Reconcile.antt =====
-- reconcile.go: which parts of the captures are punched. `NTFS` is what the reconciler is told of
-- the file data: the ranges known, and those that an MFT write added.
pub mod Punches
mod Tests
use tssniff.Prelude.{
  ℕ, ◌+◌, Bool, true, false, not, ◌||◌, List, [], ◌∷◌, ◌++◌, ltb, leb, if◌then◌else◌, add_u64,
  length,
}
use tssniff.Ranges.{ByteRange, max_u64, min_u64}
use tssniff.Events.{CaptureRange, WriteEvent, ObservedWrite, PunchRequest}
use tssniff.Journal.{Ring, add, for_overlap}

-- `submitPunch`: the request that goes to the pipeline, if any. Whether the queue takes it is the
-- pipeline's affair.
pub submit_punch : ℕ → ℕ → ℕ → List PunchRequest
submit_punch seq start end =
    if leb end start then [] else record { capture_seq = seq; start = start; end = end } ∷ []

-- The body of the loop of `reconcileCapture`.
pub reconcile_range : CaptureRange → ByteRange → List PunchRequest
reconcile_range c r =
    if leb r.end c.start || leb c.end r.start
    then []
    else let start = max_u64 c.start r.start in
      let end = min_u64 c.end r.end in if leb end start then [] else submit_punch c.seq start end

-- `reconcileCapture`, over the ranges that `DataRanges` returns.
pub reconcile_capture : CaptureRange → List ByteRange → List PunchRequest
reconcile_capture c [] = []
reconcile_capture c (r ∷ rs) = reconcile_range c r ++ reconcile_capture c rs

-- The function that `run` hands to `ForOverlap`, and the captures that it is called with.
pub punch_capture : ByteRange → CaptureRange → List PunchRequest
punch_capture r c =
    let start = max_u64 c.start r.start in
    let end = min_u64 c.end r.end in if leb end start then [] else submit_punch c.seq start end

pub punch_captures : ByteRange → List CaptureRange → List PunchRequest
punch_captures r [] = []
punch_captures r (c ∷ cs) = punch_capture r c ++ punch_captures r cs

-- The loop over `newRanges`.
pub punch_ranges : Ring CaptureRange → List ByteRange → List PunchRequest
punch_ranges j [] = []
punch_ranges j (r ∷ rs) = punch_captures r (for_overlap j r.start r.end) ++ punch_ranges j rs

-- The loop over the captures of a write: each goes into the journal, and is reconciled.
record_captures :
    Ring CaptureRange → List CaptureRange → List ByteRange → Ring CaptureRange × List PunchRequest
record_captures j [] known = (j, [])
record_captures j (c ∷ cs) known =
    let (j', punches) = record_captures (add j c) cs known in
    (j', reconcile_capture c known ++ punches)

-- One round of `run`. `known` is what `DataRanges` returns, `observe start end` the new ranges
-- that `ObserveMFTWrite` does.
pub observe_write :
    Ring CaptureRange
    → ObservedWrite
    → List ByteRange
    → (ℕ → ℕ → List ByteRange)
    → Ring CaptureRange × List PunchRequest
observe_write j ev known observe =
    let write = ev.event in
    let (j', punches) = record_captures j ev.captures known in
    if not write.touches_mft then (j', punches) else (
      j',
      punches ++ punch_ranges j' (observe write.offset (add_u64 write.offset (length write.bytes))),
    )
