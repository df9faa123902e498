-- ===== src/Ntfs/Files/Inside.antt =====
-- Where the data ranges of a record lie.
use native.Mathlib.Nat.{mod-eq_of_lt, mul-le-mul_right}
use tssniff.Prelude.{
  ℕ, ◌+◌, ◌*◌, ◌%◌, ◌^◌, ◌≤◌, ◌<◌, ◌≡◌, true, List, [], ◌∷◌, ◌++◌, arith, ◌==◌, inl, inr,
  Bool-cases,
}
use tssniff.Ranges.{ByteRange}
use tssniff.Ranges.Points.{covers, covers-append}
use tssniff.Mbr.{Partition}
use tssniff.Ntfs.{NtfsRun, NtfsAttribute}
use tssniff.Ntfs.Boot.{Geometry}
use tssniff.Ntfs.Boot.Sound.{IsSound}
use tssniff.Ntfs.Record.{NtfsRecord}
use tssniff.Ntfs.Volume.{run_physical}
use tssniff.Ntfs.Files.{run_ranges, ranges_of_runs, ranges_of_attributes, build_data_ranges, remove}

-- Every byte of the ranges is one of the partition.
abbrev pub AreInside : Partition → List ByteRange → Type 0
AreInside part rs = (x : ℕ) → covers x rs ≡ true → (part.offset ≤ x) × (x < part.offset + part.size)

pub AreInside-append :
    (part : Partition) (rs ss : List ByteRange)
    → AreInside part rs
    → AreInside part ss
    → AreInside part (rs ++ ss)
AreInside-append part rs ss p q x h = elim (Bool-cases (covers x rs)) [
  | inl e ↦ p x e
  | inr e ↦ q x (ground (arith, covers-append x rs ss))
]

-- The place of a cluster that the volume has.
run_physical_lem :
    (part : Partition) (g : Geometry) (r : NtfsRun)
    → IsSound part g
    → part.offset + part.size < 2 ^ 64
    → r.lcn < g.total_clusters
    → run_physical part.offset g.cluster_size r ≡ part.offset + r.lcn * g.cluster_size
unfolding run_physical
run_physical_lem part g r s w h =
    let fits =
      mul-le-mul_right {m = r.lcn} {n = g.total_clusters} g.cluster_size (omega (arith, h)) in
    let e : r.lcn * g.cluster_size % 2 ^ 64 ≡ r.lcn * g.cluster_size =
      mod-eq_of_lt (omega (arith, s.room, fits)) in
    rw e (mod-eq_of_lt (omega (arith, s.room, fits)))

run_ranges-AreInside :
    (part : Partition) (g : Geometry) (real : ℕ) (r : NtfsRun)
    → IsSound part g
    → part.offset + part.size < 2 ^ 64
    → AreInside part (run_ranges part g real r)
unfolding run_ranges
run_ranges-AreInside part g real r s w x h = ground (arith, run_physical_lem part g r s w)

ranges_of_runs-AreInside :
    (part : Partition) (g : Geometry) (real : ℕ) (rs : List NtfsRun)
    → IsSound part g
    → part.offset + part.size < 2 ^ 64
    → AreInside part (ranges_of_runs part g real rs)
unfolding ranges_of_runs
ranges_of_runs-AreInside part g real [] s w x h = cc
ranges_of_runs-AreInside part g real (r ∷ rs) s w x h =
    AreInside-append part (run_ranges part g real r) (ranges_of_runs part g real rs)
      (run_ranges-AreInside part g real r s w) (ranges_of_runs-AreInside part g real rs s w) x h

ranges_of_attributes-AreInside :
    (part : Partition) (g : Geometry) (attrs : List NtfsAttribute)
    → IsSound part g
    → part.offset + part.size < 2 ^ 64
    → AreInside part (ranges_of_attributes part g attrs)
unfolding ranges_of_attributes
ranges_of_attributes-AreInside part g [] s w x h = cc
ranges_of_attributes-AreInside part g (a ∷ as') s w x h = ground (
  arith,
  ranges_of_attributes-AreInside part g as' s w x,
  AreInside-append part (ranges_of_runs part g a.real_size a.runs) (ranges_of_attributes part g as')
      (ranges_of_runs-AreInside part g a.real_size a.runs s w)
      (ranges_of_attributes-AreInside part g as' s w) x,
)

-- Of every record that is kept.
abbrev pub AllInside : Partition → List (ℕ × NtfsRecord) → Type 0
AllInside part [] = Unit {0}
AllInside part ((id, info) ∷ es) = AreInside part info.data_ranges × AllInside part es

pub remove-AllInside :
    (part : Partition) (k : ℕ) (es : List (ℕ × NtfsRecord))
    → AllInside part es
    → AllInside part (remove k es)
unfolding remove
remove-AllInside part k [] v = tt
remove-AllInside part k ((i, info) ∷ es) (v, vs) = elim (Bool-cases (i == k)) [
  | inl e ↦ rw e (remove-AllInside part k es vs)
  | inr e ↦ rw e (v, remove-AllInside part k es vs)
]

pub build_data_ranges-AreInside :
    (part : Partition) (g : Geometry) (info : NtfsRecord) (attrs : List NtfsAttribute)
    → IsSound part g
    → part.offset + part.size < 2 ^ 64
    → AreInside part (build_data_ranges part g info attrs).data_ranges
unfolding build_data_ranges
build_data_ranges-AreInside part g info attrs s w x h =
    ground (arith, ranges_of_attributes-AreInside part g attrs s w x)
