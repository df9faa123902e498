-- ===== src/Ntfs/Files.antt =====
-- The file table of the reader: the records that are kept, the byte ranges of their data, and the
-- two range lists made of them. The map `records` is a list with at most one entry for a key.
pub mod Inside
pub mod Rebuilt
use tssniff.Prelude.{
  ℕ, zero, suc, ◌+◌, ◌-◌, ◌*◌, Bool, true, false, not, ◌||◌, ◌&&◌, List, [], ◌∷◌, ◌++◌, Option,
  none, some, ltb, leb, ◌==◌, if◌then◌else◌, add_u64, bit_and,
}
use tssniff.Ranges.{ByteRange, sort, coalesce_byte_ranges}
use tssniff.Mbr.{Partition}
use tssniff.Ntfs.{NtfsRun, NtfsAttribute}
use tssniff.Ntfs.Boot.{Geometry}
use tssniff.Ntfs.Record.{NtfsRecord, ntfs_attr_data}
use tssniff.Ntfs.Volume.{Ntfs, run_start, run_bytes, run_physical, is_skipped}
use tssniff.Ntfs.Ids.{contains}

abbrev pub ntfs_first_user_record : ℕ
ntfs_first_user_record = 16

-- The flags compressed, encrypted and sparse.
abbrev pub unusual_flags : ℕ
unusual_flags = 0xC001

-- The two tests at the head of each loop over the attributes.
unfoldable pub is_plain_data : NtfsAttribute → Bool
is_plain_data a =
    not (not (a.kind == ntfs_attr_data) || a.named || not a.non_resident)
    && bit_and a.flags unusual_flags == 0

-- The body of the loop over the runs of an attribute with `real` bytes.
unfoldable pub run_ranges : Partition → Geometry → ℕ → NtfsRun → List ByteRange
run_ranges part g real r =
    let logical = run_start g.cluster_size r in
    let bytes = run_bytes g.cluster_size r in
    let nbytes = if ltb (real - logical) bytes then real - logical else bytes in
    let physical = run_physical part.offset g.cluster_size r in
    let part_end = add_u64 part.offset part.size in
    if is_skipped r || leb g.total_clusters r.lcn
    then []
    else if leb real logical
    then []
    else if leb part_end physical || ltb (part_end - physical) nbytes
    then []
    else record { start = physical; end = add_u64 physical nbytes } ∷ []

unfoldable pub ranges_of_runs : Partition → Geometry → ℕ → List NtfsRun → List ByteRange
ranges_of_runs part g real [] = []
ranges_of_runs part g real (r ∷ rs) = run_ranges part g real r ++ ranges_of_runs part g real rs

unfoldable pub ranges_of_attributes : Partition → Geometry → List NtfsAttribute → List ByteRange
ranges_of_attributes part g [] = []
ranges_of_attributes part g (a ∷ as') =
    let rest = ranges_of_attributes part g as' in
    if is_plain_data a then ranges_of_runs part g a.real_size a.runs ++ rest else rest

-- `buildDataRanges`
unfoldable pub build_data_ranges :
    Partition → Geometry → NtfsRecord → List NtfsAttribute → NtfsRecord
build_data_ranges part g info attrs = record info {
  data_ranges =
      if ltb info.base_id ntfs_first_user_record || info.is_dir
      then []
      else ranges_of_attributes part g attrs;
}

-- `delete(n.records, id)`
unfoldable pub remove : ℕ → List (ℕ × NtfsRecord) → List (ℕ × NtfsRecord)
remove k [] = []
remove k ((i, info) ∷ es) = let rest = remove k es in if i == k then rest else (i, info) ∷ rest

-- `n.records[id] = info`
unfoldable pub put : ℕ → NtfsRecord → List (ℕ × NtfsRecord) → List (ℕ × NtfsRecord)
put k info es = (k, info) ∷ remove k es

-- A record that was parsed: the end of `refreshRecord` and of the body of `scanMFTLogicalRange`.
unfoldable pub store_record : Ntfs → ℕ → NtfsRecord → List NtfsAttribute → Ntfs
store_record n id info attrs =
    if not info.in_use then record n { records = remove id n.records } else record n {
      records = put id (build_data_ranges n.partition n.geometry info attrs) n.records;
    }

-- The first loop of `rebuildRanges`.
unfoldable pub is_active : ℕ → NtfsRecord → Bool
is_active id info =
    not
      (not (id == info.base_id) || ltb id ntfs_first_user_record || not info.in_use || info.is_dir)

unfoldable pub active_files : List (ℕ × NtfsRecord) → List ℕ
active_files [] = []
active_files ((id, info) ∷ es) =
    let rest = active_files es in if is_active id info then id ∷ rest else rest

-- The second loop.
unfoldable pub active_ranges : List ℕ → List (ℕ × NtfsRecord) → List ByteRange
active_ranges ids [] = []
active_ranges ids ((id, info) ∷ es) =
    let rest = active_ranges ids es in
    if contains ids info.base_id then info.data_ranges ++ rest else rest

-- The loop of `buildMFTRanges` with `remaining` bytes left.
unfoldable pub mft_ranges_from : Partition → Geometry → ℕ → List NtfsRun → List ByteRange
mft_ranges_from part g remaining [] = []
mft_ranges_from part g remaining (r ∷ rs) = elim (remaining == 0) [
  | true ↦ []
  | false ↦ elim (run_bytes g.cluster_size r == 0) [
    | true ↦ mft_ranges_from part g remaining rs
    | false ↦
        let bytes = run_bytes g.cluster_size r in
        let nbytes = if ltb remaining bytes then remaining else bytes in
        let start = run_physical part.offset g.cluster_size r in
        let rest = mft_ranges_from part g (remaining - nbytes) rs in
        if is_skipped r then rest else record { start = start; end = add_u64 start nbytes } ∷ rest
  ]
]

-- `buildMFTRanges`
unfoldable pub build_mft_ranges : Ntfs → List ByteRange
build_mft_ranges n =
    if n.mft_size == 0
    then []
    else coalesce_byte_ranges (mft_ranges_from n.partition n.geometry n.mft_size n.mft_runs)

-- `rebuildRanges`
unfoldable pub rebuild_ranges : Ntfs → Ntfs
rebuild_ranges n = record n {
  data_ranges = coalesce_byte_ranges (sort (active_ranges (active_files n.records) n.records));
  mft_ranges = build_mft_ranges n;
}

-- `publishSnapshots`
unfoldable pub publish_snapshots : Ntfs → Ntfs
publish_snapshots n = record n {
  mft_snapshot = some n.mft_ranges;
  data_snapshot = some n.data_ranges;
}
