-- ===== src/Ntfs/Observe/Scan.antt =====
-- The rounds of the scan of the MFT.
use native.Mathlib.Nat.{mod-eq_of_lt}
use tssniff.Prelude.{
  ℕ, zero, suc, ◌+◌, ◌-◌, ◌%◌, ◌^◌, ◌≤◌, ◌<◌, ◌≡◌, ◌≢◌, false, List, Option, some, arith, ltb, leb,
  ◌==◌, add_u64, inl, inr, Bool-cases,
}
use tssniff.Ranges.{min_u64}
use tssniff.Ntfs.{NtfsError, NtfsResult, ok, err, Reader, out_of_fuel}
use tssniff.Ntfs.Volume.{Ntfs, read_mft_logical}
use tssniff.Ntfs.Volume.Ends.{Ends, read_mft_logical-Ends}
use tssniff.Ntfs.Observe.{ntfs_scan_chunk_size, scan_chunks, scan_mft_logical_range}

-- The error of a scan, if any, is one of the code.
abbrev pub ScanEnds : Option NtfsError × Ntfs → Type 0
ScanEnds r = r.0 ≢ some out_of_fuel

-- What follows the read of a chunk.
scan_read-ScanEnds :
    (res : NtfsResult (List ℕ)) (n : Ntfs) (f : List ℕ → Option NtfsError × Ntfs)
    → Ends res
    → ((buf : List ℕ) → ScanEnds (f buf))
    → ScanEnds (elim res as (λ _. Option NtfsError × Ntfs) [ err e ↦ (some e, n) | ok buf ↦ f buf ])
scan_read-ScanEnds (ok buf) n f v h = h buf
scan_read-ScanEnds (err e) n f v h = λ k. v cc

scan_chunks-ScanEnds :
    (fuel : ℕ) (reader : Reader) (n : Ntfs) (logical end : ℕ)
    → ((physical k : ℕ) → Ends (reader physical k))
    → end < 2 ^ 64
    → end ≤ logical + fuel
    → ScanEnds (scan_chunks fuel reader n logical end)
unfolding scan_chunks min_u64
scan_chunks-ScanEnds zero reader n logical end ends w h =
    let stop : ltb logical end ≡ false = ground arith in rw stop (λ k. cc)
scan_chunks-ScanEnds (suc fuel) reader n logical end ends w h =
    let size = n.geometry.mft_record_size in
    let room = min_u64 ntfs_scan_chunk_size (end - logical) in
    let chunk = room - room % size in
    elim (Bool-cases (ltb logical end)) [
      | inr e ↦ rw (e, scan_chunks) (λ k. cc)
      | inl e ↦ elim (Bool-cases (chunk == 0)) [
        | inl f ↦ rw (e, f, scan_chunks) (λ k. cc)
        | inr f ↦
            let inside : logical + chunk ≤ end = ground arith in
            let next : (logical + chunk) % 2 ^ 64 ≡ logical + chunk = mod-eq_of_lt (omega arith) in
            let some_bytes : 0 < chunk = ground arith in
            let bound : end ≤ add_u64 logical chunk + fuel = rw next (omega arith) in
            rw (e, f, scan_chunks)
              (scan_read-ScanEnds (read_mft_logical reader n logical chunk) n _
                (read_mft_logical-Ends reader n logical chunk ends)
                (λ buf.
                  scan_chunks-ScanEnds fuel reader _ (add_u64 logical chunk) end ends w bound))
      ]
    ]

-- If the reader's calls return, so does `scanMFTLogicalRange` on a range that ends below 2 ^
-- 64: with the error of a read, or without one; its rounds and those of the reads below it are
-- enough.
pub scan_mft_logical_range-ScanEnds :
    (reader : Reader) (n : Ntfs) (start end : ℕ)
    → ((physical k : ℕ) → Ends (reader physical k))
    → end < 2 ^ 64
    → ScanEnds (scan_mft_logical_range reader n start end)
unfolding scan_mft_logical_range
scan_mft_logical_range-ScanEnds reader n start end ends w =
    let size = n.geometry.mft_record_size in
    let first = start - start % size in
    let last = end - end % size in
    elim (Bool-cases (leb last first)) [
      | inl e ↦ rw e (λ k. cc)
      | inr e ↦
          rw e (
            scan_chunks-ScanEnds (last - first) reader n first last ends (omega arith)
              (omega arith))
    ]
