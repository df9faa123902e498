-- ===== src/Ntfs/Volume.antt =====
-- The state of `NTFS`, and the reads that go through the run list of the MFT.
pub mod Mapping
pub mod Read
pub mod Ends
use tssniff.Prelude.{
  ℕ, zero, suc, ◌+◌, ◌-◌, ◌*◌, ◌/◌, ◌%◌, Bool, true, false, not, ◌||◌, ◌&&◌, List, [], ◌∷◌, ◌++◌,
  Option, none, some, ltb, leb, ◌==◌, if◌then◌else◌, add_u64, mul_u64,
}
use tssniff.Ranges.{ByteRange, min_u64, ranges_overlap_snapshot}
use tssniff.Mbr.{Partition}
use tssniff.Ntfs.{
  NtfsRun, NtfsAttribute, NtfsResult, ok, err, ◌>>=◌, Reader, is_negative, outside_mft, unmapped,
  out_of_fuel,
}
use tssniff.Ntfs.Boot.{Geometry}
use tssniff.Ntfs.Fixup.{apply_fixup}
use tssniff.Ntfs.Record.{NtfsRecord, parse_ntfs_record}

-- `NTFS`. The map `records` is a list of entries, and a snapshot that was not published is `none`.
pub record Ntfs : Type 0 where
  pub partition : Partition
  pub geometry : Geometry
  pub mft_runs : List NtfsRun
  pub mft_size : ℕ
  pub records : List (ℕ × NtfsRecord)
  pub data_ranges : List ByteRange
  pub mft_ranges : List ByteRange
  pub mft_snapshot : Option (List ByteRange)
  pub data_snapshot : Option (List ByteRange)

-- `TouchesMFT`
pub touches_mft : Ntfs → ℕ → ℕ → Bool
touches_mft n start end = elim n.mft_snapshot [
  | none ↦ false
  | some ranges ↦ ranges_overlap_snapshot ranges start end
]

-- `DataRanges`
pub data_ranges_of : Ntfs → List ByteRange
data_ranges_of n = elim n.data_snapshot [ none ↦ [] | some ranges ↦ ranges ]

-- Where a run begins and ends in the file, how long it is, and where it begins on the disk, for a
-- cluster size and the start of the partition.
unfoldable pub run_start : ℕ → NtfsRun → ℕ
run_start cs r = mul_u64 r.start_vcn cs

unfoldable pub run_bytes : ℕ → NtfsRun → ℕ
run_bytes cs r = mul_u64 r.length cs

unfoldable pub run_end : ℕ → NtfsRun → ℕ
run_end cs r = add_u64 (run_start cs r) (run_bytes cs r)

unfoldable pub run_physical : ℕ → ℕ → NtfsRun → ℕ
run_physical base cs r = add_u64 base (mul_u64 r.lcn cs)

-- `run.Sparse || run.LCN < 0`
unfoldable pub is_skipped : NtfsRun → Bool
is_skipped r = r.sparse || is_negative r.lcn

-- The first run that has the byte at `pos` of the file.
unfoldable pub find_run : ℕ → ℕ → List NtfsRun → Option NtfsRun
find_run cs pos [] = none
find_run cs pos (r ∷ rs) =
    let rest = find_run cs pos rs in
    if is_skipped r || (ltb pos (run_start cs r) || leb (run_end cs r) pos) then rest else some r

-- The bytes of a result, with those of one more read in front.
abbrev pub prepend_bytes : List ℕ → NtfsResult (List ℕ) → NtfsResult (List ℕ)
prepend_bytes bs (ok rest) = ok (bs ++ rest)
prepend_bytes bs (err e) = err e

-- How much of a run is read at once.
abbrev pub chunk_size : ℕ → NtfsRun → ℕ → ℕ → ℕ
chunk_size cs r pos remaining =
    let left = run_bytes cs r - (pos - run_start cs r) in
    if ltb remaining left then remaining else left

-- The loop of `readMFTLogical`. Each round reads a byte at least, so what remains is enough fuel.
unfoldable pub read_runs : ℕ → Reader → ℕ → ℕ → List NtfsRun → ℕ → ℕ → NtfsResult (List ℕ)
read_runs zero reader base cs runs pos remaining = if remaining == 0 then ok [] else err out_of_fuel
read_runs (suc fuel) reader base cs runs pos remaining = elim (remaining == 0) [
  | true ↦ ok []
  | false ↦ elim (find_run cs pos runs) [
    | none ↦ err unmapped
    | some r ↦
        let nbytes = chunk_size cs r pos remaining in
        elim (reader (add_u64 (run_physical base cs r) (pos - run_start cs r)) nbytes) [
          | err e ↦ err e
          | ok bytes ↦
              prepend_bytes bytes
                (read_runs fuel reader base cs runs (add_u64 pos nbytes) (remaining - nbytes))
        ]
  ]
]

-- `readMFTLogical` into a slice of `len` bytes.
unfoldable pub read_mft_logical : Reader → Ntfs → ℕ → ℕ → NtfsResult (List ℕ)
read_mft_logical reader n logical len =
    if ltb n.mft_size logical || ltb (n.mft_size - logical) len
    then err outside_mft
    else read_runs len reader n.partition.offset n.geometry.cluster_size n.mft_runs logical len

-- `mftRecordCount`
unfoldable pub mft_record_count : Ntfs → ℕ
mft_record_count n =
    let size = n.geometry.mft_record_size in
    if size == 0 || n.mft_size == 0 then 0 else add_u64 n.mft_size (size - 1) / size

-- `readRawRecord`
unfoldable pub read_raw_record : Reader → Geometry → ℕ → NtfsResult (List ℕ)
read_raw_record reader g physical =
    reader physical g.mft_record_size >>= λ buf. apply_fixup buf g.bytes_per_sector

-- `readRecord`
unfoldable pub read_record : Reader → Ntfs → ℕ → NtfsResult (NtfsRecord × List NtfsAttribute)
read_record reader n id =
    if leb (mft_record_count n) id
    then err outside_mft
    else read_mft_logical reader n (mul_u64 id n.geometry.mft_record_size)
        n.geometry.mft_record_size
      >>= λ buf. apply_fixup buf n.geometry.bytes_per_sector >>= λ rec. parse_ntfs_record rec id
