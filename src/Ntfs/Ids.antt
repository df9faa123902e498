-- ===== src/Ntfs/Ids.antt =====
-- `mftRecordIDsForPhysicalRange`: the records that a write touches. The set is a list that may name
-- a record twice.
pub mod Sets
pub mod Touched
use tssniff.Prelude.{
  ℕ, zero, suc, ◌+◌, ◌-◌, ◌*◌, ◌/◌, Bool, true, false, ◌||◌, List, [], ◌∷◌, ◌++◌, leb, ◌==◌,
  if◌then◌else◌, add_u64, sub_u64,
}
use tssniff.Ranges.{max_u64, min_u64}
use tssniff.Ntfs.{NtfsRun}
use tssniff.Ntfs.Boot.{Geometry}
use tssniff.Ntfs.Volume.{Ntfs, run_start, run_bytes, run_physical, is_skipped}

-- The loop over the numbers from `first` on, with `n` of them left. Its break at the largest
-- uint64 comes where the numbers end.
unfoldable pub numbers : ℕ → ℕ → List ℕ
numbers zero first = []
numbers (suc n) first = first ∷ numbers n (first + 1)

-- The records of the bytes `[a, b)` of the MFT.
unfoldable pub ids_between : ℕ → ℕ → ℕ → List ℕ
ids_between size a b =
    let first = a / size in let last = sub_u64 b 1 / size in numbers (last + 1 - first) first

-- The body of the loop over the runs.
unfoldable pub run_ids : ℕ → ℕ → ℕ → ℕ → ℕ → NtfsRun → List ℕ
run_ids base cs size start end r =
    let phys_start = run_physical base cs r in
    let phys_end = add_u64 phys_start (run_bytes cs r) in
    if is_skipped r
    then []
    else if leb phys_end start || leb end phys_start
    then []
    else ids_between size (add_u64 (run_start cs r) (max_u64 start phys_start - phys_start))
        (add_u64 (run_start cs r) (sub_u64 (min_u64 end phys_end) phys_start))

unfoldable pub ids_of_runs : ℕ → ℕ → ℕ → ℕ → ℕ → List NtfsRun → List ℕ
ids_of_runs base cs size start end [] = []
ids_of_runs base cs size start end (r ∷ rs) =
    run_ids base cs size start end r ++ ids_of_runs base cs size start end rs

unfoldable pub contains : List ℕ → ℕ → Bool
contains [] k = false
contains (i ∷ is) k = i == k || contains is k

-- The set, and whether record 0 is in it.
unfoldable pub mft_record_ids : Ntfs → ℕ → ℕ → List ℕ × Bool
mft_record_ids n start end =
    let ids =
      ids_of_runs n.partition.offset n.geometry.cluster_size n.geometry.mft_record_size start end
        n.mft_runs in
    (ids, contains ids 0)
