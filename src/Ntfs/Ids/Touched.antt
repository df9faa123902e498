-- ===== src/Ntfs/Ids/Touched.antt =====
-- Which records a write touches.
use native.Mathlib.Nat.{mod-eq_of_lt}
use tssniff.Prelude.{
  ℕ, ◌+◌, ◌-◌, ◌*◌, ◌/◌, ◌%◌, ◌^◌, ◌≤◌, ◌<◌, ◌≡◌, ◌↔◌, refl, Bool, true, false, ◌||◌, ◌&&◌, List,
  [], ◌∷◌, arith, ltb, leb, if◌then◌else◌, inl, inr, Bool-cases,
}
use tssniff.Ranges.{max_u64, min_u64}
use tssniff.Ntfs.{NtfsRun}
use tssniff.Ntfs.Volume.{Ntfs, is_skipped}
use tssniff.Ntfs.Volume.Mapping.{Maps, MapsTo, InRange, in_range_lem}
use tssniff.Ntfs.Ids.{ids_between, run_ids, ids_of_runs, contains, mft_record_ids}
use tssniff.Ntfs.Ids.Sets.{Meets, contains-append, contains-ids_between}

-- The write `[start, end)` reaches a byte that the run puts into the record `k`.
abbrev Reaches : ℕ → ℕ → ℕ → ℕ → ℕ → NtfsRun → ℕ → Type 0
Reaches base cs size start end r k =
    (l : ℕ) × (p : ℕ) × Maps base cs r l p × (start ≤ p) × (p < end) × (l / size ≡ k)

-- What the run maps, when no address of it wraps and the write meets it.
Reaches-between :
    (base cs size start end k : ℕ) (r : NtfsRun)
    → InRange base cs r
    → is_skipped r ≡ false
    → let phys = base + r.lcn * cs in
      let a = r.start_vcn * cs + (max_u64 start phys - phys) in
      let b = r.start_vcn * cs + (min_u64 end (phys + r.length * cs) - phys) in
      Meets size a b k ↔ Reaches base cs size start end r k
unfolding max_u64 min_u64
Reaches-between base cs size start end k r v s = (
  λ m.
      let (l, x, y, z) = m in
      (
        l,
        base + r.lcn * cs + l - r.start_vcn * cs,
        record { present = s; from = omega arith; below = ground arith; at = omega arith },
        ground arith,
        ground arith,
        z,
      ),
  λ m.
      let (l, q, w, x, y, z) = m in
      (l, ground (arith, w.at, w.from), ground (arith, w.at, w.below), z),
)

-- The write meets the bytes of the run.
abbrev hits : ℕ → ℕ → ℕ → ℕ → NtfsRun → Bool
hits base cs start end r =
    ltb start (base + r.lcn * cs + r.length * cs) && ltb (base + r.lcn * cs) end

-- The records of a run that is not skipped.
run_ids_lem :
    (base cs size start end : ℕ) (r : NtfsRun)
    → InRange base cs r
    → is_skipped r ≡ false
    → let phys = base + r.lcn * cs in
      run_ids base cs size start end r ≡ (
        if hits base cs start end r
        then ids_between size
            (r.start_vcn * cs + (max_u64 start phys - phys))
            (r.start_vcn * cs + (min_u64 end (phys + r.length * cs) - phys))
        else [])
unfolding run_ids max_u64 min_u64
run_ids_lem base cs size start end r v s =
    let (a, b, c, d) = in_range_lem base cs r v in
    let phys = base + r.lcn * cs in
    let e : (phys + r.length * cs) % 2 ^ 64 ≡ phys + r.length * cs =
      mod-eq_of_lt (omega (arith, v.physical s)) in
    elim (Bool-cases (hits base cs start end r)) [
      | inl t ↦
          let f : (r.start_vcn * cs + (max_u64 start phys - phys)) % 2 ^ 64
              ≡ r.start_vcn * cs + (max_u64 start phys - phys) =
            mod-eq_of_lt (ground (arith, v.logical)) in
          let g : (r.start_vcn * cs + (min_u64 end (phys + r.length * cs) - phys)) % 2 ^ 64
              ≡ r.start_vcn * cs + (min_u64 end (phys + r.length * cs) - phys) =
            mod-eq_of_lt (ground (arith, v.logical)) in
          let u : (leb (phys + r.length * cs) start || leb end phys) ≡ false = ground arith in
          let physical = v.physical s in
          let w : (min_u64 end (phys + r.length * cs) + 2 ^ 64 - phys) % 2 ^ 64
              ≡ min_u64 end (phys + r.length * cs) - phys =
            ground (arith, physical) in
          rw (a, b, d s, e, s, t, u, f, w, g) refl
      | inr t ↦
          let u : (leb (phys + r.length * cs) start || leb end phys) ≡ true = ground arith in
          rw (a, b, d s, e, s, t, u) refl
    ]

-- No address of the run wraps, and it has a byte.
abbrev IsSolid : ℕ → ℕ → NtfsRun → Type 0
IsSolid base cs r = InRange base cs r × (0 < r.length * cs)

-- Those of a list.
abbrev pub AllSolid : ℕ → ℕ → List NtfsRun → Type 0
AllSolid base cs [] = Unit {0}
AllSolid base cs (r ∷ rs) = IsSolid base cs r × AllSolid base cs rs

contains-run_ids :
    (base cs size start end k : ℕ) (r : NtfsRun)
    → 0 < size
    → start < end
    → IsSolid base cs r
    → (contains (run_ids base cs size start end r) k ≡ true) ↔ Reaches base cs size start end r k
unfolding max_u64 min_u64 contains run_ids
contains-run_ids base cs size start end k r p h (v, some_bytes) = elim (Bool-cases (is_skipped r)) [
  | inl s ↦
      let none' : run_ids base cs size start end r ≡ [] = rw s refl in
      rw none' (λ t. cc, λ m. let (l, q, w, x, y, z) = m in let no = w.present in cc)
  | inr s ↦ elim (Bool-cases (hits base cs start end r)) [
    | inl t ↦
        let phys = base + r.lcn * cs in
        let a = r.start_vcn * cs + (max_u64 start phys - phys) in
        let b = r.start_vcn * cs + (min_u64 end (phys + r.length * cs) - phys) in
        let (to, from) =
          contains-ids_between size a b k p (ground arith) (ground (arith, v.logical)) in
        let (to', from') = Reaches-between base cs size start end k r v s in
        rw (run_ids_lem base cs size start end r v s, t) (λ x. to' (to x), λ x. from (from' x))
    | inr t ↦
        rw (run_ids_lem base cs size start end r v s, t)
          (
            λ t'. cc,
            λ m. let (l, q, w, x, y, z) = m in absurd (ground (arith, w.at, w.from, w.below)),
          )
  ]
]

-- The write `[start, end)` reaches a byte that the runs put into the record `k`.
abbrev pub IsTouched : ℕ → ℕ → ℕ → ℕ → ℕ → List NtfsRun → ℕ → Type 0
IsTouched base cs size start end rs k =
    (l : ℕ) × (p : ℕ) × MapsTo base cs rs l p × (start ≤ p) × (p < end) × (l / size ≡ k)

contains-ids_of_runs :
    (base cs size start end k : ℕ) (rs : List NtfsRun)
    → 0 < size
    → start < end
    → AllSolid base cs rs
    → (contains (ids_of_runs base cs size start end rs) k ≡ true)
      ↔ IsTouched base cs size start end rs k
unfolding ids_of_runs contains
contains-ids_of_runs base cs size start end k [] p h v =
    (λ t. cc, λ m. let (l, q, w, x, y, z) = m in absurd w)
contains-ids_of_runs base cs size start end k (r ∷ rs) p h (v, vs) =
    let (to, from) = contains-run_ids base cs size start end k r p h v in
    let (to', from') = contains-ids_of_runs base cs size start end k rs p h vs in
    let both =
      contains-append (run_ids base cs size start end r) (ids_of_runs base cs size start end rs)
        k in
    rw both (
      λ t. elim (Bool-cases (contains (run_ids base cs size start end r) k)) [
        | inl e ↦ let (l, q, w, x, y, z) = to e in (l, q, inl w, x, y, z)
        | inr e ↦ let (l, q, w, x, y, z) = to' (ground arith) in (l, q, inr w, x, y, z)
      ],
      λ m.
          let (l, q, w, x, y, z) = m in
          elim w [
            | inl w ↦ let e = from (l, q, w, x, y, z) in ground arith
            | inr w ↦ let e = from' (l, q, w, x, y, z) in ground arith
          ],
    )

-- For a nonempty write, when no address of a run wraps and no run is empty,
-- `mftRecordIDsForPhysicalRange` has a record in its set exactly if the write reaches a byte
-- that the runs put into the record, and its flag is set exactly if that holds of record 0.
pub mft_record_ids-IsTouched :
    (n : Ntfs) (start end k : ℕ)
    → 0 < n.geometry.mft_record_size
    → start < end
    → AllSolid n.partition.offset n.geometry.cluster_size n.mft_runs
    → let touched =
        IsTouched n.partition.offset n.geometry.cluster_size n.geometry.mft_record_size start end
          n.mft_runs in
      let (ids, zero_touched) = mft_record_ids n start end in
      ((contains ids k ≡ true) ↔ touched k) × ((zero_touched ≡ true) ↔ touched 0)
unfolding mft_record_ids
mft_record_ids-IsTouched n start end k p h v = (
  contains-ids_of_runs n.partition.offset n.geometry.cluster_size n.geometry.mft_record_size start
      end k n.mft_runs p h v,
  contains-ids_of_runs n.partition.offset n.geometry.cluster_size n.geometry.mft_record_size start
      end 0 n.mft_runs p h v,
)
