-- ===== src/Ntfs/Observe/Safe.antt =====
-- The invariant of the reader's state, through every operation.
use tssniff.Prelude.{
  ℕ, zero, suc, ◌+◌, ◌-◌, ◌/◌, ◌%◌, ◌^◌, ◌<◌, not, List, Option, none, some, ltb, leb, ◌==◌, inl,
  inr, Bool-cases,
}
use tssniff.Ranges.{min_u64}
use tssniff.Ranges.Points.{IsSeparated}
use tssniff.Ntfs.{NtfsAttribute, NtfsError, NtfsResult, ok, err, Reader}
use tssniff.Ntfs.Bytes.{begins_with}
use tssniff.Ntfs.Boot.Sound.{IsSound}
use tssniff.Ntfs.Fixup.{apply_fixup}
use tssniff.Ntfs.Record.{NtfsRecord, ntfs_file_magic, parse_ntfs_record}
use tssniff.Ntfs.Volume.{Ntfs, read_mft_logical, read_record}
use tssniff.Ntfs.Files.{put, store_record, rebuild_ranges, publish_snapshots}
use tssniff.Ntfs.Files.Inside.{AreInside, AllInside, remove-AllInside, build_data_ranges-AreInside}
use tssniff.Ntfs.Files.Rebuilt.{rebuild_ranges-AreInside, covers-rebuild_ranges}
use tssniff.Ntfs.Observe.{
  ntfs_scan_chunk_size, first_plain, with_layout, adopt_layout, refreshed, keep_parsed, keep_fixed,
  refresh_record, scan_record, scan_chunk, scan_chunks, scan_mft_logical_range,
}

-- The geometry is sound, and every byte of a kept record and of the data ranges is one of the
-- partition.
pub record IsSafe (n : Ntfs) : Type 0 where
  pub sound : IsSound n.partition n.geometry
  pub small : n.partition.offset + n.partition.size < 2 ^ 64
  pub records_inside : AllInside n.partition n.records
  pub data_inside : AreInside n.partition n.data_ranges
  pub separated : IsSeparated 0 n.data_ranges

store_record-IsSafe :
    (n : Ntfs) (id : ℕ) (info : NtfsRecord) (attrs : List NtfsAttribute)
    → IsSafe n
    → IsSafe (store_record n id info attrs)
unfolding store_record put
store_record-IsSafe n id info attrs v = elim (Bool-cases (not info.in_use)) [
  | inl e ↦ rw e (record {
    sound = v.sound;
    small = v.small;
    records_inside = remove-AllInside n.partition id n.records v.records_inside;
    data_inside = v.data_inside;
    separated = v.separated;
  })
  | inr e ↦ rw e (record {
    sound = v.sound;
    small = v.small;
    records_inside = (
      build_data_ranges-AreInside n.partition n.geometry info attrs v.sound v.small,
      remove-AllInside n.partition id n.records v.records_inside,
    );
    data_inside = v.data_inside;
    separated = v.separated;
  })
]

pub with_layout-IsSafe : (n : Ntfs) (a : NtfsAttribute) → IsSafe n → IsSafe (with_layout n a)
unfolding with_layout
with_layout-IsSafe n a v = record {
  sound = v.sound;
  small = v.small;
  records_inside = v.records_inside;
  data_inside = v.data_inside;
  separated = v.separated;
}

adopt_layout-IsSafe :
    (n : Ntfs) (attrs : List NtfsAttribute) → IsSafe n → IsSafe (adopt_layout n attrs)
unfolding adopt_layout
adopt_layout-IsSafe n attrs v =
    elim (first_plain attrs) as (λ o. IsSafe (elim o [ none ↦ n | some a ↦ with_layout n a ])) [
      | none ↦ v
      | some a ↦ with_layout-IsSafe n a v
    ]

refreshed-IsSafe :
    (n : Ntfs) (id : ℕ) (parsed : NtfsResult (NtfsRecord × List NtfsAttribute))
    → IsSafe n
    → IsSafe (refreshed n id parsed).1
unfolding refreshed
refreshed-IsSafe n id (err e) v = v
refreshed-IsSafe n id (ok (info, attrs)) v = elim (Bool-cases (id == 0)) [
  | inl e ↦
      rw e
        (store_record-IsSafe (adopt_layout n attrs) id info attrs (adopt_layout-IsSafe n attrs v))
  | inr e ↦ rw e (store_record-IsSafe n id info attrs v)
]

pub refresh_record-IsSafe :
    (reader : Reader) (n : Ntfs) (id : ℕ) → IsSafe n → IsSafe (refresh_record reader n id).1
unfolding refresh_record
refresh_record-IsSafe reader n id v = refreshed-IsSafe n id (read_record reader n id) v

keep_parsed-IsSafe :
    (n : Ntfs) (id : ℕ) (parsed : NtfsResult (NtfsRecord × List NtfsAttribute))
    → IsSafe n
    → IsSafe (keep_parsed n id parsed)
unfolding keep_parsed
keep_parsed-IsSafe n id (err e) v = v
keep_parsed-IsSafe n id (ok (info, attrs)) v = store_record-IsSafe n id info attrs v

keep_fixed-IsSafe :
    (n : Ntfs) (id : ℕ) (fixed : NtfsResult (List ℕ)) → IsSafe n → IsSafe (keep_fixed n id fixed)
unfolding keep_fixed
keep_fixed-IsSafe n id (err e) v = v
keep_fixed-IsSafe n id (ok rec) v = elim (Bool-cases (not (begins_with ntfs_file_magic rec))) [
  | inl e ↦ rw e v
  | inr e ↦ rw e (keep_parsed-IsSafe n id (parse_ntfs_record rec id) v)
]

scan_record-IsSafe : (n : Ntfs) (id : ℕ) (raw : List ℕ) → IsSafe n → IsSafe (scan_record n id raw)
unfolding scan_record
scan_record-IsSafe n id raw v =
    keep_fixed-IsSafe n id (apply_fixup raw n.geometry.bytes_per_sector) v

scan_chunk-IsSafe :
    (count : ℕ) (n : Ntfs) (logical : ℕ) (buf : List ℕ)
    → IsSafe n
    → IsSafe (scan_chunk count n logical buf)
unfolding scan_chunk
scan_chunk-IsSafe zero n logical buf v = v
scan_chunk-IsSafe (suc count) n logical buf v =
    scan_chunk-IsSafe count _ _ _ (scan_record-IsSafe n _ _ v)

pub rebuild_ranges-IsSafe : (n : Ntfs) → IsSafe n → IsSafe (rebuild_ranges n)
unfolding rebuild_ranges
rebuild_ranges-IsSafe n v = record {
  sound = v.sound;
  small = v.small;
  records_inside = v.records_inside;
  data_inside = rebuild_ranges-AreInside n v.records_inside;
  separated = (covers-rebuild_ranges n 0).1;
}

pub publish_snapshots-IsSafe : (n : Ntfs) → IsSafe n → IsSafe (publish_snapshots n)
unfolding publish_snapshots
publish_snapshots-IsSafe n v = record {
  sound = v.sound;
  small = v.small;
  records_inside = v.records_inside;
  data_inside = v.data_inside;
  separated = v.separated;
}

scan_read-IsSafe :
    (res : NtfsResult (List ℕ)) (n : Ntfs) (f : List ℕ → Option NtfsError × Ntfs)
    → IsSafe n
    → ((buf : List ℕ) → IsSafe (f buf).1)
    → IsSafe (elim res as (λ _. Option NtfsError × Ntfs) [ err e ↦ (some e, n) | ok buf ↦ f buf ]).1
scan_read-IsSafe (ok buf) n f v h = h buf
scan_read-IsSafe (err e) n f v h = v

scan_chunks-IsSafe :
    (fuel : ℕ) (reader : Reader) (n : Ntfs) (logical end : ℕ)
    → IsSafe n
    → IsSafe (scan_chunks fuel reader n logical end).1
unfolding scan_chunks
scan_chunks-IsSafe zero reader n logical end v = elim (Bool-cases (ltb logical end)) [
  | inl e ↦ rw e v
  | inr e ↦ rw e (rebuild_ranges-IsSafe n v)
]
scan_chunks-IsSafe (suc fuel) reader n logical end v =
    let size = n.geometry.mft_record_size in
    let room = min_u64 ntfs_scan_chunk_size (end - logical) in
    let chunk = room - room % size in
    elim (Bool-cases (ltb logical end)) [
      | inr e ↦ rw (e, scan_chunks) (rebuild_ranges-IsSafe n v)
      | inl e ↦ elim (Bool-cases (chunk == 0)) [
        | inl f ↦ rw (e, f, scan_chunks) (rebuild_ranges-IsSafe n v)
        | inr f ↦
            rw (e, f, scan_chunks)
              (scan_read-IsSafe (read_mft_logical reader n logical chunk) n _ v (λ buf.
                scan_chunks-IsSafe fuel reader _ _ end
                  (scan_chunk-IsSafe (chunk / size) n logical buf v)))
      ]
    ]

pub scan_mft_logical_range-IsSafe :
    (reader : Reader) (n : Ntfs) (start end : ℕ)
    → IsSafe n
    → IsSafe (scan_mft_logical_range reader n start end).1
unfolding scan_mft_logical_range
scan_mft_logical_range-IsSafe reader n start end v =
    let size = n.geometry.mft_record_size in
    let first = start - start % size in
    let last = end - end % size in
    elim (Bool-cases (leb last first)) [
      | inl e ↦ rw e v
      | inr e ↦ rw e (scan_chunks-IsSafe (last - first) reader n first last v)
    ]
