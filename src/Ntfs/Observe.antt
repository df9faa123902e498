-- ===== src/Ntfs/Observe.antt =====
-- The operations of the reader that change its state: the layout of the MFT, the scan of its
-- records, and `ObserveMFTWrite`. A result that is an error leaves the state as it stands then.
pub mod Scan
pub mod Safe
pub mod Refreshed
pub mod Change
pub mod Merged
use tssniff.Prelude.{
  ℕ, zero, suc, ◌+◌, ◌-◌, ◌*◌, ◌/◌, ◌%◌, ◌^◌, Bool, true, false, not, ◌||◌, ◌&&◌, List, [], ◌∷◌,
  ◌++◌, Option, none, some, ltb, leb, ◌==◌, if◌then◌else◌, add_u64, mul_u64, take, drop,
}
use tssniff.Ranges.{ByteRange, min_u64, subtract_ranges}
use tssniff.Mbr.{Partition}
use tssniff.Ntfs.{
  NtfsAttribute, NtfsError, NtfsResult, ok, err, ◌>>=◌, Reader, is_negative, empty_mft,
  mft_has_zero_size, no_mft_data, invalid_partition_offset, invalid_partition_size, out_of_fuel,
}
use tssniff.Ntfs.Bytes.{begins_with}
use tssniff.Ntfs.Boot.{Geometry, read_boot_sector}
use tssniff.Ntfs.Fixup.{apply_fixup}
use tssniff.Ntfs.Record.{NtfsRecord, ntfs_file_magic, parse_ntfs_record}
use tssniff.Ntfs.Volume.{Ntfs, read_mft_logical, mft_record_count, read_raw_record, read_record}
use tssniff.Ntfs.Ids.{numbers, contains, mft_record_ids}
use tssniff.Ntfs.Files.{is_plain_data, remove, store_record, rebuild_ranges, publish_snapshots}

abbrev pub ntfs_scan_chunk_size : ℕ
ntfs_scan_chunk_size = 8 * 2 ^ 20

-- The first attribute that the loops over the attributes of record 0 take.
unfoldable pub first_plain : List NtfsAttribute → Option NtfsAttribute
first_plain [] = none
first_plain (a ∷ as') = let rest = first_plain as' in if is_plain_data a then some a else rest

-- What they take from it.
unfoldable pub with_layout : Ntfs → NtfsAttribute → Ntfs
with_layout n a = record n {
  mft_runs = a.runs;
  mft_size = if a.real_size == 0 then a.allocated_size else a.real_size;
}

unfoldable pub adopt_layout : Ntfs → List NtfsAttribute → Ntfs
adopt_layout n attrs = elim (first_plain attrs) [ none ↦ n | some a ↦ with_layout n a ]

-- `loadMFTLayout` from its loop on.
unfoldable pub adopted : Ntfs → Option NtfsAttribute → NtfsResult Ntfs
adopted n none = err no_mft_data
adopted n (some a) =
    if (with_layout n a).mft_size == 0 then err mft_has_zero_size else ok (with_layout n a)

unfoldable pub load_mft_layout : Reader → Ntfs → NtfsResult Ntfs
load_mft_layout reader n =
    let g = n.geometry in
    read_raw_record reader g (add_u64 n.partition.offset (mul_u64 g.boot_mft_lcn g.cluster_size))
    >>= λ buf. parse_ntfs_record buf 0 >>= λ parsed. adopted n (first_plain parsed.1)

-- `refreshRecord` behind its read, with its error and the state it leaves.
unfoldable pub refreshed :
    Ntfs → ℕ → NtfsResult (NtfsRecord × List NtfsAttribute) → Option NtfsError × Ntfs
refreshed n id (err e) = (some e, n)
refreshed n id (ok (info, attrs)) =
    (none, store_record (if id == 0 then adopt_layout n attrs else n) id info attrs)

unfoldable pub refresh_record : Reader → Ntfs → ℕ → Option NtfsError × Ntfs
refresh_record reader n id = refreshed n id (read_record reader n id)

-- The body of the loop over the records of a chunk, from the call of `parseNTFSRecord` on.
unfoldable pub keep_parsed : Ntfs → ℕ → NtfsResult (NtfsRecord × List NtfsAttribute) → Ntfs
keep_parsed n id (err e) = n
keep_parsed n id (ok (info, attrs)) = store_record n id info attrs

-- From the call of `applyNTFSFixup` on.
unfoldable pub keep_fixed : Ntfs → ℕ → NtfsResult (List ℕ) → Ntfs
keep_fixed n id (err e) = n
keep_fixed n id (ok rec) =
    if not (begins_with ntfs_file_magic rec) then n else keep_parsed n id (parse_ntfs_record rec id)

unfoldable pub scan_record : Ntfs → ℕ → List ℕ → Ntfs
scan_record n id raw = keep_fixed n id (apply_fixup raw n.geometry.bytes_per_sector)

-- That loop, with `count` records left of which the first begins at `logical`.
unfoldable pub scan_chunk : ℕ → Ntfs → ℕ → List ℕ → Ntfs
scan_chunk zero n logical buf = n
scan_chunk (suc count) n logical buf =
    let size = n.geometry.mft_record_size in
    scan_chunk count (scan_record n (logical / size) (take size buf)) (add_u64 logical size)
      (drop size buf)

-- The loop over the chunks. Each is at least one byte long, so the bytes left are enough fuel.
unfoldable pub scan_chunks : ℕ → Reader → Ntfs → ℕ → ℕ → Option NtfsError × Ntfs
scan_chunks zero reader n logical end =
    if ltb logical end then (some out_of_fuel, n) else (none, rebuild_ranges n)
scan_chunks (suc fuel) reader n logical end = elim (ltb logical end) [
  | false ↦ (none, rebuild_ranges n)
  | true ↦
      let size = n.geometry.mft_record_size in
      let room = min_u64 ntfs_scan_chunk_size (end - logical) in
      let chunk = room - room % size in
      elim (chunk == 0) [
        | true ↦ (none, rebuild_ranges n)
        | false ↦ elim (read_mft_logical reader n logical chunk) [
          | err e ↦ (some e, n)
          | ok buf ↦
              scan_chunks fuel reader (scan_chunk (chunk / size) n logical buf)
                (add_u64 logical chunk) end
        ]
      ]
]

-- `scanMFTLogicalRange`
unfoldable pub scan_mft_logical_range : Reader → Ntfs → ℕ → ℕ → Option NtfsError × Ntfs
scan_mft_logical_range reader n start end =
    let size = n.geometry.mft_record_size in
    let first = start - start % size in
    let last = end - end % size in
    if leb last first then (none, n) else scan_chunks (last - first) reader n first last

-- `scanMFT`
unfoldable pub scan_mft : Reader → Ntfs → Option NtfsError × Ntfs
scan_mft reader n =
    if mft_record_count n == 0
    then (some empty_mft, n)
    else scan_mft_logical_range reader n 0 n.mft_size

-- The value that `NewNTFS` makes, with what `readBootSector` puts into it.
abbrev pub bare_ntfs : Partition → Geometry → Ntfs
bare_ntfs part g = record {
  partition = part;
  geometry = g;
  mft_runs = [];
  mft_size = 0;
  records = [];
  data_ranges = [];
  mft_ranges = [];
  mft_snapshot = none;
  data_snapshot = none;
}

-- Its end, behind a scan.
unfoldable pub scanned : Option NtfsError × Ntfs → NtfsResult Ntfs
scanned (none, n) = ok (publish_snapshots n)
scanned (some e, n) = err e

-- `NewNTFS`
unfoldable pub new_ntfs : Partition → Reader → NtfsResult Ntfs
new_ntfs part reader =
    if is_negative part.offset
    then err invalid_partition_offset
    else if part.size == 0 || is_negative part.size
    then err invalid_partition_size
    else read_boot_sector reader part >>= λ g.
        load_mft_layout reader (bare_ntfs part g) >>= λ n. scanned (scan_mft reader n)

-- How many different numbers a list has: the length of what `rangeKey` returns.
pub distinct : List ℕ → ℕ
distinct [] = 0
distinct (i ∷ is) = let rest = distinct is in if contains is i then rest else suc rest

-- The records to refresh, once record 0 was refreshed. The loop ranges over the indices of
-- `rangeKey(newIDs)`, not over its elements.
pub merged_ids : List ℕ → List ℕ → List ℕ
merged_ids ids new_ids = ids ++ numbers (distinct new_ids) 0

-- What follows the refresh of record 0.
pub refreshed_zero : List ℕ → ℕ → ℕ → Option NtfsError × Ntfs → List ℕ × Ntfs
refreshed_zero ids start end (some e, n) = (ids, n)
refreshed_zero ids start end (none, n) = (merged_ids ids (mft_record_ids n start end).0, n)

-- Record 0, refreshed first if the write touches it.
pub refresh_zero : Reader → Ntfs → ℕ → ℕ → List ℕ × Ntfs
refresh_zero reader n start end =
    let (ids, touches_zero) = mft_record_ids n start end in
    if touches_zero then refreshed_zero ids start end (refresh_record reader n 0) else (ids, n)

-- The tail of an MFT that grew.
pub scan_growth : Reader → ℕ → Ntfs → Ntfs
scan_growth reader old_size n =
    if ltb old_size n.mft_size
    then (scan_mft_logical_range reader n (old_size - old_size % n.geometry.mft_record_size)
        n.mft_size).1
    else n

-- The body of the loop over the records.
pub refresh_id : Reader → Ntfs → ℕ → Ntfs
refresh_id reader n id =
    if id == 0
    then n
    else if leb (mft_record_count n) id
    then record n { records = remove id n.records }
    else (refresh_record reader n id).1

-- The loop over the records.
pub refresh_ids : Reader → Ntfs → List ℕ → Ntfs
refresh_ids reader n [] = n
refresh_ids reader n (id ∷ ids) = refresh_ids reader (refresh_id reader n id) ids

-- `ObserveMFTWrite`: the new ranges, and the state behind it.
pub observe_mft_write : Reader → Ntfs → ℕ → ℕ → List ByteRange × Ntfs
observe_mft_write reader n start end =
    if leb end start
    then ([], n)
    else let (ids, n1) = refresh_zero reader n start end in
      let n2 = refresh_ids reader (scan_growth reader n.mft_size n1) ids in
      let n3 = publish_snapshots (rebuild_ranges n2) in
      (subtract_ranges n3.data_ranges n.data_ranges, n3)
