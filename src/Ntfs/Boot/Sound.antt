-- ===== src/Ntfs/Boot/Sound.antt =====
-- What is known of the geometry of a volume that was accepted.
use native.Mathlib.Nat.{mul-le-mul_right, div-mul-le_self, le-mul_of_pos_right}
use tssniff.Prelude.{
  ℕ, zero, suc, ◌-◌, ◌*◌, ◌/◌, ◌%◌, ◌^◌, ◌≤◌, ◌<◌, ◌≡◌, ◌⊎◌, refl, subst, bit_and, Bool, true, not,
  ◌||◌, ◌&&◌, List, arith, leb, ◌==◌, get_or,
}
use tssniff.Mbr.{Partition}
use tssniff.Ntfs.{ok, ◌>>=◌, >>=-ok, Reader}
use tssniff.Ntfs.Bytes.{le_at}
use tssniff.Ntfs.Boot.{
  Geometry, decode_record_size, cluster_count, check_record_size, boot_geometry, read_boot_sector,
}

-- Sectors of a usual size, whole sectors to a record and to a cluster, and clusters that the
-- partition has room for, that of the MFT among them.
pub record IsSound (part : Partition) (g : Geometry) : Type 0 where
  pub sector :
      (g.bytes_per_sector ≡ 512)
      ⊎ ((g.bytes_per_sector ≡ 1024) ⊎ ((g.bytes_per_sector ≡ 2048) ⊎ (g.bytes_per_sector ≡ 4096)))
  pub record_least : g.bytes_per_sector ≤ g.mft_record_size
  pub record_most : g.mft_record_size ≤ 2 ^ 20
  pub record_whole : g.mft_record_size % g.bytes_per_sector ≡ 0
  pub cluster_least : g.bytes_per_sector ≤ g.cluster_size
  pub room : g.total_clusters * g.cluster_size ≤ part.size
  pub mft_inside : g.boot_mft_lcn < g.total_clusters

all_below : ℕ → (ℕ → Bool) → Bool
all_below zero test = true
all_below (suc n) test = test n && all_below n test

all_below-lt : (test : ℕ → Bool) (n i : ℕ) → i < n → all_below n test ≡ true → test i ≡ true
unfolding all_below
all_below-lt test zero i k h = absurd (omega arith)
all_below-lt test (suc n) i k h = ground (arith, all_below-lt test n i)

-- `bps & (bps - 1) == 0` within the accepted range, value by value.
usual : ℕ → Bool
usual b =
    not (leb 512 b && bit_and b (b - 1) == 0)
    || (b == 512 || (b == 1024 || (b == 2048 || b == 4096)))

usual_table : all_below 4097 usual ≡ true
unfolding all_below usual
usual_table = refl

usual_sector :
    (b : ℕ)
    → 512 ≤ b
    → b ≤ 4096
    → bit_and b (b - 1) ≡ 0
    → (b ≡ 512) ⊎ ((b ≡ 1024) ⊎ ((b ≡ 2048) ⊎ (b ≡ 4096)))
unfolding usual
usual_sector b h k e = ground (arith, all_below-lt usual 4097 b (omega arith) usual_table)

cluster_count-le : (size cs total spc : ℕ) → cluster_count size cs total spc ≤ size / cs
unfolding cluster_count
cluster_count-le size cs total spc = ground arith

cluster_count_room : (size cs total spc : ℕ) → cluster_count size cs total spc * cs ≤ size
cluster_count_room size cs total spc =
    omega (arith, mul-le-mul_right cs (cluster_count-le size cs total spc), div-mul-le_self size cs)

-- The sector size and the cluster size pass the tests.
record IsUsual (bps cs : ℕ) : Type 0 where
  least : 512 ≤ bps
  most : bps ≤ 4096
  power : bit_and bps (bps - 1) ≡ 0
  whole : bps ≤ cs

check_record_size-IsSound :
    (part : Partition) (bps cs clusters lcn rs : ℕ) {g : Geometry}
    → IsUsual bps cs
    → clusters * cs ≤ part.size
    → check_record_size bps cs clusters lcn rs ≡ ok g
    → IsSound part g
unfolding check_record_size
check_record_size-IsSound part bps cs clusters lcn rs {g} u r h =
    let made : record {
      bytes_per_sector = bps;
      cluster_size = cs;
      total_clusters = clusters;
      mft_record_size = rs;
      boot_mft_lcn = lcn;
    }
        ≡ g =
      ground arith in
    subst (IsSound part) made (record {
      sector = usual_sector bps u.least u.most u.power;
      record_least = ground arith;
      record_most = ground arith;
      record_whole = ground arith;
      cluster_least = u.whole;
      room = r;
      mft_inside = ground arith;
    })

-- The tests on the sizes, and the call behind them.
boot_geometry-IsUsual :
    (part : Partition) (boot : List ℕ) {g : Geometry}
    → boot_geometry part boot ≡ ok g
    → let bps = le_at 2 boot 11 in
      let spc = get_or boot 13 0 in
      let cs = bps * spc in
      IsUsual bps cs
      × ((decode_record_size (get_or boot 64 0) spc bps
            >>= check_record_size bps cs
                (cluster_count part.size cs (le_at 8 boot 40) spc)
                (le_at 8 boot 48))
          ≡ ok g)
unfolding boot_geometry
boot_geometry-IsUsual part boot {g} h =
    let bps = le_at 2 boot 11 in
    let spc = get_or boot 13 0 in
    let some_sectors : 0 < spc = ground arith in
    (
      record {
        least = ground arith;
        most = ground arith;
        power = ground arith;
        whole = le-mul_of_pos_right bps some_sectors;
      },
      ground arith,
    )

boot_geometry-IsSound :
    (part : Partition) (boot : List ℕ) {g : Geometry}
    → boot_geometry part boot ≡ ok g
    → IsSound part g
boot_geometry-IsSound part boot {g} h =
    let bps = le_at 2 boot 11 in
    let spc = get_or boot 13 0 in
    let (u, e) = boot_geometry-IsUsual part boot h in
    let (rs, checked, made) = >>=-ok (decode_record_size (get_or boot 64 0) spc bps) _ e in
    check_record_size-IsSound part bps (bps * spc) _ _ rs u
      (cluster_count_room part.size (bps * spc) (le_at 8 boot 40) spc) checked

-- A geometry that `readBootSector` accepts, whatever the reader returns, has sectors of 512,
-- 1024, 2048 or 4096 bytes, records of whole sectors between one sector and 2 ^ 20 bytes,
-- clusters of a sector at least, as many clusters at most as the partition has room for, and
-- the first cluster of the MFT among them.
pub read_boot_sector-IsSound :
    (reader : Reader) (part : Partition) {g : Geometry}
    → read_boot_sector reader part ≡ ok g
    → IsSound part g
unfolding read_boot_sector
read_boot_sector-IsSound reader part h =
    let (boot, e, r) = >>=-ok (reader part.offset 512) (boot_geometry part) h in
    boot_geometry-IsSound part boot e
