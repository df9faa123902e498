-- ===== src/Ntfs/Volume/Ends.antt =====
-- The rounds of readMFTLogical.
use tssniff.Prelude.{
  ℕ, zero, suc, ◌-◌, ◌≤◌, ◌<◌, ◌≡◌, ◌≢◌, refl, subst, true, ◌||◌, List, [], ◌∷◌, Option, none, some,
  arith, ltb, leb, ◌==◌, add_u64, inl, inr, Bool-cases,
}
use tssniff.Ntfs.{NtfsRun, NtfsResult, ok, err, Reader, out_of_fuel, unmapped}
use tssniff.Ntfs.Volume.{
  Ntfs, run_start, run_bytes, run_end, run_physical, is_skipped, find_run, prepend_bytes,
  chunk_size, read_runs, read_mft_logical,
}

-- The result is not that of a loop with too few rounds.
abbrev pub Ends {ℓ} : {A : Type ℓ} → NtfsResult A → Type 0
Ends (ok a) = Unit {0}
Ends (err e) = e ≢ out_of_fuel

-- A run that is found has a byte from the position on.
find_run_rest :
    (cs pos : ℕ) (runs : List NtfsRun) (r : NtfsRun)
    → find_run cs pos runs ≡ some r
    → pos - run_start cs r < run_bytes cs r
unfolding find_run run_end
find_run_rest cs pos [] r h = cc
find_run_rest cs pos (q ∷ qs) r h =
    elim (Bool-cases (is_skipped q || (ltb pos (run_start cs q) || leb (run_end cs q) pos))) [
      | inl e ↦ find_run_rest cs pos qs r (rw (e, find_run) at h)
      | inr e ↦
          let same : q ≡ r = ground arith in
          subst (λ k. pos - run_start cs k < run_bytes cs k) same (ground arith)
    ]

prepend_bytes-Ends : (bs : List ℕ) (r : NtfsResult (List ℕ)) → Ends r → Ends (prepend_bytes bs r)
prepend_bytes-Ends bs (ok a) h = tt
prepend_bytes-Ends bs (err e) h = h

-- What follows a read ends if the read does.
read-Ends :
    (res : NtfsResult (List ℕ)) (next : NtfsResult (List ℕ))
    → Ends res
    → Ends next
    → Ends (elim res as (λ _. NtfsResult (List ℕ)) [
      | err e ↦ err e
      | ok bytes ↦ prepend_bytes bytes next
    ])
read-Ends (ok bytes) next h k = prepend_bytes-Ends bytes next k
read-Ends (err e) next h k = h

-- Each round takes a byte of what remains.
found-Ends :
    (fuel : ℕ) (reader : Reader) (base cs : ℕ) (runs : List NtfsRun) (pos remaining : ℕ)
    (found : Option NtfsRun)
    → find_run cs pos runs ≡ found
    → ((physical len : ℕ) → Ends (reader physical len))
    → remaining ≢ 0
    → remaining ≤ suc fuel
    → ((pos' remaining' : ℕ)
        → remaining' ≤ fuel
        → Ends (read_runs fuel reader base cs runs pos' remaining'))
    → Ends (elim found as (λ _. NtfsResult (List ℕ)) [
      | none ↦ err unmapped
      | some r ↦
          let nbytes = chunk_size cs r pos remaining in
          elim (reader (add_u64 (run_physical base cs r) (pos - run_start cs r)) nbytes) [
            | err e ↦ err e
            | ok bytes ↦
                prepend_bytes bytes
                  (read_runs fuel reader base cs runs (add_u64 pos nbytes) (remaining - nbytes))
          ]
    ])
found-Ends fuel reader base cs runs pos remaining none e ends p h rec = λ k. cc
found-Ends fuel reader base cs runs pos remaining (some r) e ends p h rec =
    let nbytes = chunk_size cs r pos remaining in
    let least : remaining - nbytes ≤ fuel = ground (arith, find_run_rest cs pos runs r e) in
    read-Ends (reader (add_u64 (run_physical base cs r) (pos - run_start cs r)) nbytes)
      (read_runs fuel reader base cs runs (add_u64 pos nbytes) (remaining - nbytes)) (ends _ _)
      (rec (add_u64 pos nbytes) (remaining - nbytes) least)

read_runs-Ends :
    (fuel : ℕ) (reader : Reader) (base cs : ℕ) (runs : List NtfsRun) (pos remaining : ℕ)
    → ((physical len : ℕ) → Ends (reader physical len))
    → remaining ≤ fuel
    → Ends (read_runs fuel reader base cs runs pos remaining)
unfolding read_runs
read_runs-Ends zero reader base cs runs pos remaining ends h =
    let none_left : (remaining == 0) ≡ true = ground arith in rw none_left tt
read_runs-Ends (suc fuel) reader base cs runs pos remaining ends h =
    elim (Bool-cases (remaining == 0)) [
      | inl e ↦ rw (e, read_runs) tt
      | inr e ↦
          rw (e, read_runs)
            (found-Ends fuel reader base cs runs pos remaining (find_run cs pos runs) refl ends
              (ground arith) h
              (λ pos' remaining' k. read_runs-Ends fuel reader base cs runs pos' remaining' ends k))
    ]

-- If the reader's calls return, so does `readMFTLogical`.
pub read_mft_logical-Ends :
    (reader : Reader) (n : Ntfs) (logical len : ℕ)
    → ((physical k : ℕ) → Ends (reader physical k))
    → Ends (read_mft_logical reader n logical len)
unfolding read_mft_logical
read_mft_logical-Ends reader n logical len ends =
    elim (Bool-cases (ltb n.mft_size logical || ltb (n.mft_size - logical) len)) [
      | inl e ↦ rw e (λ k. cc)
      | inr e ↦ rw e (
          read_runs-Ends len reader n.partition.offset n.geometry.cluster_size n.mft_runs logical
            len ends (omega arith))
    ]
