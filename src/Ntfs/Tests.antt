-- ===== src/Ntfs/Tests.antt =====
-- A small volume: its boot sector, an MFT of 17 records, and runs of the parsers and the reader on
-- it.
use tssniff.Prelude.{
  ap, ◌∙◌, ◌↔◌, ℕ, zero, suc, ◌+◌, ◌-◌, ◌≤◌, ◌<◌, ◌≡◌, refl, true, false, List, [], ◌∷◌, ◌++◌, some,
  arith, ltb, if◌then◌else◌, replicate, get_or, length,
}
use tssniff.Ranges.Points.{covers, IsSeparated}
use tssniff.Ranges.{
  ByteRange, less, insert, sort, extend, coalesce_from, coalesce_sorted, coalesce_byte_ranges,
  min_u64,
}
use tssniff.Mbr.{Partition}
use tssniff.Ntfs.{ok, Reader, Returns}
use tssniff.Ntfs.Boot.{Geometry, ntfs_magic}
use tssniff.Ntfs.Record.{NtfsRecord, ntfs_file_magic}
use tssniff.Ntfs.Bytes.{le, le_at, begins_with}
use tssniff.Ntfs.Boot.{
  decode_record_size, cluster_count, check_record_size, boot_geometry, read_boot_sector,
}
use tssniff.Ntfs.Runlist.{sign_extend, bad_header, parse_runs, parse_ntfs_runlist}
use tssniff.Ntfs.Fixup.{trailer, matches, restore, fix_sectors, apply_fixup}
use tssniff.Ntfs.Record.{
  bad_name, parse_non_resident, parse_ntfs_attribute, parse_attributes, record_header,
  parse_ntfs_record,
}
use tssniff.Ntfs.Volume.{
  Ntfs, run_start, run_bytes, run_end, run_physical, is_skipped, find_run, read_runs,
  read_mft_logical, mft_record_count, read_raw_record, read_record,
}
use tssniff.Ntfs.Files.{
  is_plain_data, run_ranges, ranges_of_runs, ranges_of_attributes, build_data_ranges, remove, put,
  store_record, is_active, active_files, active_ranges, mft_ranges_from, build_mft_ranges,
  rebuild_ranges, publish_snapshots,
}
use tssniff.Ntfs.Observe.{
  first_plain, with_layout, adopt_layout, adopted, load_mft_layout, refreshed, refresh_record,
  keep_parsed, keep_fixed, scan_record, scan_chunk, scan_chunks, scan_mft_logical_range, scan_mft,
  scanned, new_ntfs,
}
use tssniff.Ntfs.Ids.{numbers, ids_between, run_ids, ids_of_runs, contains, mft_record_ids}
use tssniff.Ntfs.Boot.Sound.{IsSound, read_boot_sector-IsSound}
use tssniff.Ntfs.Observe.{observe_mft_write}
use tssniff.Ntfs.Observe.Safe.{IsSafe}
use tssniff.Ntfs.Observe.Change.{
  IsPublished, IsObserved, new_ntfs-IsSafe, observe_mft_write-IsObserved,
}
use tssniff.Ntfs.Volume.Mapping.{AllInRange}
use tssniff.Ntfs.Volume.Read.{Serves, IsFile, read_mft_logical-IsFile}
use tssniff.Ntfs.Runlist.Encode.{Piece, encode, decoded, AllFit, parse_ntfs_runlist-encode}
use tssniff.Ntfs.Record.Attributes.{AreAttributes, parse_ntfs_record-AreAttributes}
use tssniff.Ntfs.Ids.Touched.{IsTouched, mft_record_ids-IsTouched}
use tssniff.Ntfs.Files.Rebuilt.{HasByte, covers-rebuild_ranges}
use tssniff.Ntfs.Observe.Scan.{ScanEnds, scan_mft_logical_range-ScanEnds}

abbrev boot : List ℕ
boot =
    replicate 3 0
    ++ (ntfs_magic
        ++ (0 ∷ 2 ∷ 1 ∷ replicate 26 0
            ++ (32 ∷ replicate 7 0
                ++ (1 ∷ replicate 15 0 ++ (247 ∷ replicate 445 0 ++ (0x55 ∷ 0xAA ∷ []))))))

-- An eight-byte number below 65536.
abbrev wide : ℕ → ℕ → List ℕ
wide low high = low ∷ high ∷ replicate 6 0

-- The data attribute with one run and a real size.
abbrev attribute : ℕ → ℕ → ℕ → ℕ → List ℕ
attribute clusters lcn low high =
    0x80 ∷ 0 ∷ 0 ∷ 0 ∷ 72 ∷ 0 ∷ 0 ∷ 0 ∷ 1 ∷ replicate 23 0
    ++ (wide 64 0
        ++ (wide low high
            ++ (wide low high ++ (wide low high ++ (0x11 ∷ clusters ∷ lcn ∷ replicate 5 0)))))

-- A record in use with that attribute.
abbrev file_record : ℕ → ℕ → ℕ → ℕ → List ℕ
file_record clusters lcn low high =
    ntfs_file_magic
    ++ (48 ∷ 0 ∷ 2 ∷ 0 ∷ replicate 8 0
        ++ (1 ∷ 0 ∷ 0 ∷ 0 ∷ 56 ∷ 0 ∷ 1 ∷ 0 ∷ replicate 24 0
            ++ (7 ∷ 0 ∷ replicate 6 0
                ++ (attribute clusters lcn low high
                    ++ (0xFF ∷ 0xFF ∷ 0xFF ∷ 0xFF ∷ replicate 378 0 ++ (7 ∷ 0 ∷ []))))))

abbrev disk : ℕ → ℕ
disk p =
    if ltb p 1024
    then 0
    else if ltb p 1536
    then get_or boot (p - 1024) 0
    else if ltb p 2048
    then get_or (file_record 17 1 0 34) (p - 1536) 0
    else if ltb p 9728
    then 0
    else if ltb p 10240
    then get_or (file_record 2 20 0xE8 3) (p - 9728) 0
    else 0

abbrev from_disk : ℕ → ℕ → List ℕ
from_disk p zero = []
from_disk p (suc n) = disk p ∷ from_disk (p + 1) n

abbrev reader : Reader
reader p n = ok (from_disk p n)

abbrev part : Partition
part = record { offset = 1024; size = 16384; kind = 7 }

lengths : length boot + length (file_record 2 20 0 1) ≡ 1024
lengths = refl

abbrev geometry : Geometry
geometry = record {
  bytes_per_sector = 512;
  cluster_size = 512;
  total_clusters = 32;
  mft_record_size = 512;
  boot_mft_lcn = 1;
}

boot-read : read_boot_sector reader part ≡ ok geometry
unfolding le le_at begins_with decode_record_size cluster_count check_record_size boot_geometry
    read_boot_sector
boot-read = refl

abbrev ranges : ℕ → ℕ → List ByteRange
ranges start end = record { start = start; end = end } ∷ []

abbrev kept : ℕ → List ByteRange → ℕ × NtfsRecord
kept id known = (
  id,
  record {
    id = id;
    base_id = id;
    sequence = 1;
    in_use = true;
    is_dir = false;
    data_ranges = known;
  },
)

abbrev volume : Ntfs
volume = record {
  partition = part;
  geometry = geometry;
  mft_runs = record { start_vcn = 0; length = 17; lcn = 1; sparse = false } ∷ [];
  mft_size = 8704;
  records = kept 16 (ranges 11264 12264) ∷ kept 0 [] ∷ [];
  data_ranges = ranges 11264 12264;
  mft_ranges = ranges 1536 10240;
  mft_snapshot = some (ranges 1536 10240);
  data_snapshot = some (ranges 11264 12264);
}

volume-made : new_ntfs part reader ≡ ok volume
unfolding le le_at begins_with decode_record_size cluster_count check_record_size boot_geometry
    read_boot_sector sign_extend bad_header parse_runs parse_ntfs_runlist trailer matches restore
    fix_sectors apply_fixup bad_name parse_non_resident parse_ntfs_attribute parse_attributes
    record_header parse_ntfs_record run_start run_bytes run_end run_physical is_skipped find_run
    read_runs read_mft_logical mft_record_count read_raw_record read_record is_plain_data run_ranges
    ranges_of_runs ranges_of_attributes build_data_ranges remove put store_record is_active
    active_files active_ranges mft_ranges_from build_mft_ranges rebuild_ranges publish_snapshots
    first_plain with_layout adopt_layout adopted load_mft_layout refreshed refresh_record
    keep_parsed keep_fixed scan_record scan_chunk scan_chunks scan_mft_logical_range scan_mft
    scanned new_ntfs numbers ids_between run_ids ids_of_runs contains mft_record_ids less insert
    sort extend coalesce_from coalesce_sorted coalesce_byte_ranges min_u64
volume-made = refl

read_boot_sector-IsSound_example : IsSound part geometry
read_boot_sector-IsSound_example = read_boot_sector-IsSound reader part boot-read

new_ntfs-IsSafe_example : IsSafe volume × IsPublished volume
new_ntfs-IsSafe_example = new_ntfs-IsSafe part reader volume-made

observe_mft_write-IsObserved_example :
    let (found, m) = observe_mft_write reader volume 9800 9900 in
    (9800 < 9900 → IsObserved reader volume 9800 9900 found m)
    × (9900 ≤ 9800 → (found ≡ []) × (m ≡ volume))
observe_mft_write-IsObserved_example =
    observe_mft_write-IsObserved reader volume 9800 9900 new_ntfs-IsSafe_example.0

-- A run of 300 clusters from cluster 17 on, and a sparse run of 3.
abbrev pieces : List Piece
pieces =
    record { length_size = 2; run_length = 300; offset_size = 1; offset = 17 }
    ∷ record { length_size = 1; run_length = 3; offset_size = 0; offset = 0 }
    ∷ []

pieces-AllFit : AllFit pieces 0
unfolding sign_extend
pieces-AllFit = (
  record {
    some_length = omega arith;
    few_length = omega arith;
    few_offset = omega arith;
    not_empty = omega arith;
    not_below = λ h. omega arith;
    length_fits = omega arith;
    offset_fits = omega arith;
    placed = omega arith;
  },
  (
    record {
      some_length = omega arith;
      few_length = omega arith;
      few_offset = omega arith;
      not_empty = omega arith;
      not_below = λ h. omega arith;
      length_fits = omega arith;
      offset_fits = omega arith;
      placed = omega arith;
    },
    tt,
  ),
)

parse_ntfs_runlist-encode_example :
    parse_ntfs_runlist (encode pieces []) 5 ≡ ok (decoded pieces 0 5)
parse_ntfs_runlist-encode_example = parse_ntfs_runlist-encode pieces [] 5 pieces-AllFit

abbrev raw : List ℕ
raw = file_record 2 20 0xE8 3

parse_ntfs_record-AreAttributes_example :
    Returns
      (λ r. (r.0 ≡ record_header raw 16) × AreAttributes (le_at 2 raw 20) (length raw) r.1)
      (parse_ntfs_record raw 16)
parse_ntfs_record-AreAttributes_example = parse_ntfs_record-AreAttributes raw 16

from_disk-next :
    (p n : ℕ)
    → ((i : ℕ) → i < n → get_or (from_disk (p + 1) n) i 0 ≡ disk (p + 1 + i))
    → (i : ℕ) → i < suc n
    → get_or (from_disk p (suc n)) i 0 ≡ disk (p + i)
from_disk-next p n b zero h = let e : p ≡ p + 0 = omega arith in ap disk e
from_disk-next p n b (suc i) h =
    let e : p + 1 + i ≡ p + suc i = omega arith in b i (omega arith) ∙ ap disk e

from_disk-get :
    (p n : ℕ)
    → (length (from_disk p n) ≡ n) × ((i : ℕ) → i < n → get_or (from_disk p n) i 0 ≡ disk (p + i))
from_disk-get p zero = (refl, λ i h. absurd (omega arith))
from_disk-get p (suc n) =
    let (a, b) = from_disk-get (p + 1) n in (omega (arith, a), from_disk-next p n b)

serves : Serves reader disk
serves = from_disk-get

volume-AllInRange : AllInRange part.offset geometry.cluster_size volume.mft_runs
volume-AllInRange = (record { logical = omega arith; physical = λ e. omega arith }, tt)

read_mft_logical-IsFile_example :
    Returns
      (IsFile disk part.offset geometry.cluster_size volume.mft_runs 500 100)
      (read_mft_logical reader volume 500 100)
read_mft_logical-IsFile_example =
    read_mft_logical-IsFile reader disk volume 500 100 serves volume-AllInRange (omega arith)

mft_record_ids-IsTouched_example :
    let touched =
      IsTouched part.offset geometry.cluster_size geometry.mft_record_size 2000 2100
        volume.mft_runs in
    let (ids, zero_touched) = mft_record_ids volume 2000 2100 in
    ((contains ids 1 ≡ true) ↔ touched 1) × ((zero_touched ≡ true) ↔ touched 0)
mft_record_ids-IsTouched_example =
    mft_record_ids-IsTouched volume 2000 2100 1 (omega arith) (omega arith)
      ((volume-AllInRange.0, omega arith), tt)

covers-rebuild_ranges_example :
    ((covers 11300 (rebuild_ranges volume).data_ranges ≡ true)
      ↔ HasByte volume.records 11300 volume.records)
    × IsSeparated 0 (rebuild_ranges volume).data_ranges
covers-rebuild_ranges_example = covers-rebuild_ranges volume 11300

scan_mft_logical_range-ScanEnds_example : ScanEnds (scan_mft_logical_range reader volume 0 8704)
scan_mft_logical_range-ScanEnds_example =
    scan_mft_logical_range-ScanEnds reader volume 0 8704 (λ p n. tt) (omega arith)
