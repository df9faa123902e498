-- ===== src/Ntfs/Boot.antt =====
-- `readBootSector` and `decodeNTFSRecordSize`
pub mod Sound
use tssniff.Prelude.{
  ℕ, ◌+◌, ◌-◌, ◌*◌, ◌/◌, ◌%◌, ◌^◌, bit_and, Bool, true, false, not, ◌||◌, ◌&&◌, List, [], ◌∷◌, ltb,
  leb, ◌==◌, if◌then◌else◌, mul_u64, drop, get_or, min,
}
use tssniff.Mbr.{Partition}
use tssniff.Ntfs.{
  NtfsResult, ok, err, ◌>>=◌, Reader, oem_id_not_found, invalid_boot_signature, invalid_geometry,
  unsupported_sector_size, cluster_size_overflow, invalid_record_exponent, unsupported_record_size,
  invalid_mft_location,
}
use tssniff.Ntfs.Bytes.{le_at, begins_with}

-- `ntfsMagic`
abbrev pub ntfs_magic : List ℕ
ntfs_magic = 0x4E ∷ 0x54 ∷ 0x46 ∷ 0x53 ∷ 0x20 ∷ 0x20 ∷ 0x20 ∷ 0x20 ∷ []

abbrev pub ntfs_max_record_size : ℕ
ntfs_max_record_size = 2 ^ 20

-- The fields of `NTFS` that the boot sector fixes.
pub record Geometry : Type 0 where
  pub bytes_per_sector : ℕ
  pub cluster_size : ℕ
  pub total_clusters : ℕ
  pub mft_record_size : ℕ
  pub boot_mft_lcn : ℕ

-- `decodeNTFSRecordSize`; `v` is the byte, an `int8`.
unfoldable pub decode_record_size : ℕ → ℕ → ℕ → NtfsResult ℕ
decode_record_size v spc bps =
    if ltb 0 v && ltb v 128
    then ok (mul_u64 (mul_u64 v spc) bps)
    else let shift = (256 - v) % 256 in
      if shift == 0 || leb 63 shift then err invalid_record_exponent else ok (2 ^ shift)

-- The smaller of the clusters that the partition has room for and those of the boot sector.
unfoldable pub cluster_count : ℕ → ℕ → ℕ → ℕ → ℕ
cluster_count size cluster_size total_sectors spc =
    let part_clusters = size / cluster_size in
    if total_sectors == 0
    then part_clusters
    else let boot_clusters = total_sectors / spc in
      if ltb boot_clusters part_clusters then boot_clusters else part_clusters

-- What stands behind the call of `decodeNTFSRecordSize`.
unfoldable pub check_record_size : ℕ → ℕ → ℕ → ℕ → ℕ → NtfsResult Geometry
check_record_size bps cluster_size clusters mft_lcn record_size =
    if ltb record_size bps || (ltb ntfs_max_record_size record_size || not (record_size % bps == 0))
    then err unsupported_record_size
    else if clusters == 0 || leb clusters mft_lcn
    then err invalid_mft_location
    else ok (record {
      bytes_per_sector = bps;
      cluster_size = cluster_size;
      total_clusters = clusters;
      mft_record_size = record_size;
      boot_mft_lcn = mft_lcn;
    })

-- `readBootSector` behind its read.
unfoldable pub boot_geometry : Partition → List ℕ → NtfsResult Geometry
boot_geometry part boot =
    let bps = le_at 2 boot 11 in
    let spc = get_or boot 13 0 in
    if not (begins_with ntfs_magic (drop 3 boot))
    then err oem_id_not_found
    else if not (le_at 2 boot 510 == 0xAA55)
    then err invalid_boot_signature
    else if bps == 0 || spc == 0
    then err invalid_geometry
    else if ltb bps 512 || (ltb 4096 bps || not (bit_and bps (bps - 1) == 0))
    then err unsupported_sector_size
    else if ltb ((2 ^ 64 - 1) / spc) bps
    then err cluster_size_overflow
    else let cluster_size = bps * spc in
      decode_record_size (get_or boot 64 0) spc bps
      >>= check_record_size bps cluster_size
          (cluster_count part.size cluster_size (le_at 8 boot 40) spc) (le_at 8 boot 48)

unfoldable pub read_boot_sector : Reader → Partition → NtfsResult Geometry
read_boot_sector reader part = reader part.offset 512 >>= boot_geometry part
