-- ===== src/Ntfs/Volume/Mapping.antt =====
-- Which byte of the disk a byte of a file stands at.
use native.Mathlib.Nat.{mod-eq_of_lt}
use tssniff.Prelude.{
  ℕ, ◌+◌, ◌*◌, ◌%◌, ◌^◌, ◌≤◌, ◌<◌, ◌≡◌, ◌⊎◌, subst, false, ◌||◌, List, [], ◌∷◌, some, arith, ltb,
  leb, inl, inr, Bool-cases,
}
use tssniff.Ntfs.{NtfsRun}
use tssniff.Ntfs.Volume.{run_start, run_bytes, run_end, run_physical, is_skipped, find_run}

-- The byte `l` of the file lies in the run, which puts it at `p`.
pub record Maps (base cs : ℕ) (r : NtfsRun) (l p : ℕ) : Type 0 where
  pub present : is_skipped r ≡ false
  pub from : r.start_vcn * cs ≤ l
  pub below : l < r.start_vcn * cs + r.length * cs
  pub at : p + r.start_vcn * cs ≡ base + r.lcn * cs + l

-- Some run of the list does.
abbrev pub MapsTo : ℕ → ℕ → List NtfsRun → ℕ → ℕ → Type 0
MapsTo base cs [] l p = ⊥
MapsTo base cs (r ∷ rs) l p = Maps base cs r l p ⊎ MapsTo base cs rs l p

-- The addresses of the run do not wrap.
pub record InRange (base cs : ℕ) (r : NtfsRun) : Type 0 where
  pub logical : r.start_vcn * cs + r.length * cs < 2 ^ 64
  pub physical : is_skipped r ≡ false → base + r.lcn * cs + r.length * cs < 2 ^ 64

abbrev pub AllInRange : ℕ → ℕ → List NtfsRun → Type 0
AllInRange base cs [] = Unit {0}
AllInRange base cs (r ∷ rs) = InRange base cs r × AllInRange base cs rs

-- Without wraps the addresses are what they say.
pub in_range_lem :
    (base cs : ℕ) (r : NtfsRun)
    → InRange base cs r
    → (run_start cs r ≡ r.start_vcn * cs)
      × (run_bytes cs r ≡ r.length * cs)
      × (run_end cs r ≡ r.start_vcn * cs + r.length * cs)
      × (is_skipped r ≡ false → run_physical base cs r ≡ base + r.lcn * cs)
unfolding run_start run_bytes run_end run_physical
in_range_lem base cs r v =
    let a : r.start_vcn * cs % 2 ^ 64 ≡ r.start_vcn * cs =
      mod-eq_of_lt (omega (arith, v.logical)) in
    let b : r.length * cs % 2 ^ 64 ≡ r.length * cs = mod-eq_of_lt (omega (arith, v.logical)) in
    (
      a,
      b,
      rw (a, b) (mod-eq_of_lt v.logical),
      λ k.
          let c : r.lcn * cs % 2 ^ 64 ≡ r.lcn * cs = mod-eq_of_lt (omega (arith, v.physical k)) in
          rw c (mod-eq_of_lt (omega (arith, v.physical k))),
    )

-- A run of the list that has the byte at `pos` and is not skipped.
pub record IsFound (base cs pos : ℕ) (runs : List NtfsRun) (r : NtfsRun) : Type 0 where
  pub in_range : InRange base cs r
  pub present : is_skipped r ≡ false
  pub from : r.start_vcn * cs ≤ pos
  pub below : pos < r.start_vcn * cs + r.length * cs
  pub listed : (l p : ℕ) → Maps base cs r l p → MapsTo base cs runs l p

-- The run that is found has the byte.
pub find_run-IsFound :
    (base cs pos : ℕ) (runs : List NtfsRun) (r : NtfsRun)
    → AllInRange base cs runs
    → find_run cs pos runs ≡ some r
    → IsFound base cs pos runs r
unfolding find_run
find_run-IsFound base cs pos [] r v e = cc
find_run-IsFound base cs pos (q ∷ qs) r (v, vs) e =
    let (a, b, c, d) = in_range_lem base cs q v in
    elim (Bool-cases (is_skipped q || (ltb pos (run_start cs q) || leb (run_end cs q) pos))) [
      | inl t ↦
          let ih = find_run-IsFound base cs pos qs r vs (rw (t, find_run) at e) in
          record {
            in_range = ih.in_range;
            present = ih.present;
            from = ih.from;
            below = ih.below;
            listed = λ l p m. inr (ih.listed l p m);
          }
      | inr f ↦
          let same : q ≡ r = ground arith in
          subst (IsFound base cs pos (q ∷ qs)) same (record {
            in_range = v;
            present = ground arith;
            from = ground (arith, a);
            below = ground (arith, c);
            listed = λ l p m. inl m;
          })
    ]
