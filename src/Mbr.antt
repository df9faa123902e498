-- ===== src/Mbr.antt =====
-- mbr.go and partition.go: the search for an NTFS partition in the boot sector.
pub mod First
pub mod Bounds
mod Tests
use tssniff.Prelude.{
  ℕ, zero, suc, ◌+◌, ◌*◌, Bool, true, false, not, ◌||◌, List, Option, none, some, ◌==◌,
  if◌then◌else◌, get_or,
}
use tssniff.Shm.Io.{IoError}

abbrev pub mbr_sector_size : ℕ
mbr_sector_size = 512

-- `Partition`; its fields are `int64`, and `kind` is the source's `Type`.
pub record Partition : Type 0 where
  pub offset : ℕ
  pub size : ℕ
  pub kind : ℕ

pub data MbrResult : Type 0 where
  found : Partition → MbrResult
  read_failed : IoError → MbrResult
  invalid_signature no_ntfs_partition : MbrResult

-- `binary.LittleEndian.Uint16` and `Uint32` of the bytes from `off` on.
pub le_u16 : List ℕ → ℕ → ℕ
le_u16 mbr off = get_or mbr off 0 + 256 * get_or mbr (off + 1) 0

pub le_u32 : List ℕ → ℕ → ℕ
unfolding le_u16
le_u32 mbr off = le_u16 mbr off + 65536 * le_u16 mbr (off + 2)

-- The body of the loop: the partition of entry `i`, if it is returned.
pub entry : List ℕ → ℕ → Option Partition
entry mbr i =
    let off = 446 + i * 16 in
    let part_type = get_or mbr (off + 4) 0 in
    if not (part_type == 0x07)
    then none
    else let start_lba = le_u32 mbr (off + 8) in
      let sectors = le_u32 mbr (off + 12) in
      if start_lba == 0 || sectors == 0
      then none
      else some (record {
        offset = start_lba * mbr_sector_size;
        size = sectors * mbr_sector_size;
        kind = part_type;
      })

-- The loop from entry `i` on, with `n` rounds left.
pub find_entry : ℕ → ℕ → List ℕ → MbrResult
find_entry zero i mbr = no_ntfs_partition
find_entry (suc n) i mbr = elim (entry mbr i) [ some p ↦ found p | none ↦ find_entry n (i + 1) mbr ]

-- `findMBRPartition`; `mbr` and `error` are what `ReadAt` gives.
pub find_mbr_partition : List ℕ → Option IoError → MbrResult
find_mbr_partition mbr error = elim error [
  | some e ↦ read_failed e
  | none ↦ if not (le_u16 mbr 510 == 0xAA55) then invalid_signature else find_entry 4 0 mbr
]
