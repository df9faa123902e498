-- ===== src/Ntfs/Runlist/Shape.antt =====
-- The form of the runs that parseNTFSRunlist gives.
use tssniff.Prelude.{
  ℕ, zero, suc, ◌-◌, ◌/◌, ◌%◌, ◌^◌, ◌<◌, ◌≡◌, ◌⊎◌, true, false, List, [], ◌∷◌, arith, add_u64,
  length, drop,
}
use tssniff.Ntfs.{NtfsRun, NtfsResult, ok, err, Returns}
use tssniff.Ntfs.Bytes.{le}
use tssniff.Ntfs.Runlist.{sign_extend, prepend, parse_runs, parse_ntfs_runlist}

-- The run has clusters, and it is either sparse with cluster -1 or begins at a cluster.
abbrev pub IsPlaced : NtfsRun → Type 0
IsPlaced r =
    (0 < r.length)
    × (((r.sparse ≡ true) × (r.lcn ≡ 2 ^ 64 - 1)) ⊎ ((r.sparse ≡ false) × (r.lcn < 2 ^ 63)))

-- Each run begins where the one before it ends, the first at `vcn`.
abbrev pub AreRuns : ℕ → List NtfsRun → Type 0
AreRuns vcn [] = Unit {0}
AreRuns vcn (r ∷ rs) = (r.start_vcn ≡ vcn) × IsPlaced r × AreRuns (add_u64 vcn r.length) rs

prepend-Returns :
    (r : NtfsRun) (t : NtfsResult (List NtfsRun)) (vcn : ℕ)
    → r.start_vcn ≡ vcn
    → IsPlaced r
    → Returns (AreRuns (add_u64 vcn r.length)) t
    → Returns (AreRuns vcn) (prepend r t)
prepend-Returns r (ok rs) vcn a b c = (a, b, c)
prepend-Returns r (err e) vcn a b c = c

parse_runs-AreRuns :
    (fuel : ℕ) (bytes : List ℕ) (lcn vcn : ℕ)
    → Returns (AreRuns vcn) (parse_runs fuel bytes lcn vcn)
unfolding parse_runs
parse_runs-AreRuns zero bytes lcn vcn = λ h. cc
parse_runs-AreRuns (suc fuel) [] lcn vcn = λ h. cc
parse_runs-AreRuns (suc fuel) (header ∷ rest) lcn vcn =
    let len = le (header % 16) rest in
    let lcn' =
      add_u64 lcn (sign_extend (header / 16) (le (header / 16) (drop (header % 16) rest))) in
    ground (
      arith,
      prepend-Returns (record { start_vcn = vcn; length = len; lcn = 2 ^ 64 - 1; sparse = true })
          (parse_runs fuel (drop (header % 16) rest) lcn (add_u64 vcn len)) vcn,
      parse_runs-AreRuns fuel (drop (header % 16) rest) lcn (add_u64 vcn len),
      prepend-Returns (record { start_vcn = vcn; length = len; lcn = lcn'; sparse = false })
          (parse_runs fuel (drop (header / 16) (drop (header % 16) rest)) lcn' (add_u64 vcn len))
          vcn,
      parse_runs-AreRuns fuel (drop (header / 16) (drop (header % 16) rest)) lcn' (add_u64 vcn len),
    )

pub parse_ntfs_runlist-AreRuns :
    (bytes : List ℕ) (start_vcn : ℕ)
    → Returns (AreRuns start_vcn) (parse_ntfs_runlist bytes start_vcn)
unfolding parse_ntfs_runlist
parse_ntfs_runlist-AreRuns bytes start_vcn = parse_runs-AreRuns (length bytes) bytes 0 start_vcn
