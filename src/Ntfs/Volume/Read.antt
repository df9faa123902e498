-- ===== src/Ntfs/Volume/Read.antt =====
-- What readMFTLogical returns of a disk that the reader serves.
use native.Mathlib.Nat.{mod-eq_of_lt}
use tssniff.Prelude.{
  ℕ, zero, suc, ◌+◌, ◌-◌, ◌*◌, ◌^◌, ◌≤◌, ◌<◌, ◌≡◌, refl, sym, subst, ◌||◌, List, [], ◌∷◌, ◌++◌,
  arith, ltb, ◌==◌, ==_iff, if◌then◌else◌, add_u64, length, get_or, length-append, inl, inr,
  Bool-cases, Option-cases,
}
use tssniff.Ntfs.{NtfsRun, NtfsResult, ok, err, Reader, Returns, Returns-mono}
use tssniff.Shm.Io.{Bytes}
use tssniff.Ntfs.Volume.{
  Ntfs, run_start, run_physical, find_run, prepend_bytes, chunk_size, read_runs, read_mft_logical,
}
use tssniff.Ntfs.Volume.Mapping.{MapsTo, AllInRange, in_range_lem, IsFound, find_run-IsFound}

-- The reader gives what the disk holds, or its own error.
abbrev pub Serves : Reader → Bytes → Type 0
Serves reader disk =
    (p n : ℕ)
    → Returns (λ bs. (length bs ≡ n) × ((i : ℕ) → i < n → get_or bs i 0 ≡ disk (p + i)))
        (reader p n)

-- Each byte is one that some run of the list puts at its place of the file, from `pos` on.
abbrev pub IsFile : Bytes → ℕ → ℕ → List NtfsRun → ℕ → ℕ → List ℕ → Type 0
IsFile disk base cs runs pos n bs =
    (length bs ≡ n)
    × ((i : ℕ) → i < n → (p : ℕ) × MapsTo base cs runs (pos + i) p × (get_or bs i 0 ≡ disk p))

get_or-append :
    (xs ys : List ℕ) (i : ℕ)
    → get_or (xs ++ ys) i 0
      ≡ (if ltb i (length xs) then get_or xs i 0 else get_or ys (i - length xs) 0)
get_or-append [] ys i = ground arith
get_or-append (x ∷ xs) ys zero = ground arith
get_or-append (x ∷ xs) ys (suc i) = ground (arith, get_or-append xs ys i)

IsFile-append :
    (disk : Bytes) (base cs : ℕ) (runs : List NtfsRun) (pos n m : ℕ) (xs : List ℕ)
    (r : NtfsResult (List ℕ))
    → IsFile disk base cs runs pos n xs
    → Returns (IsFile disk base cs runs (pos + n) m) r
    → Returns (IsFile disk base cs runs pos (n + m)) (prepend_bytes xs r)
IsFile-append disk base cs runs pos n m xs (err e) h k = k
IsFile-append disk base cs runs pos n m xs (ok ys) (a, f) (b, g) = (
  omega (arith, length-append {0} xs ys),
  λ i l. elim (Bool-cases (ltb i n)) [
    | inl t ↦ let (p, m, e) = f i (ground arith) in (p, m, ground (arith, get_or-append xs ys i))
    | inr t ↦
        let (p, m', e) = g (i - n) (ground arith) in
        let place : pos + n + (i - n) ≡ pos + i = ground arith in
        (p, subst (λ k. MapsTo base cs runs k p) place m', ground (arith, get_or-append xs ys i))
  ],
)

module _ (reader : Reader) (disk : Bytes) (s : Serves reader disk) (base cs : ℕ)
    (runs : List NtfsRun) (v : AllInRange base cs runs) where
  -- What one read gives.
  IsFile-read :
      (r : NtfsRun) (pos n : ℕ)
      → IsFound base cs pos runs r
      → pos + n ≤ r.start_vcn * cs + r.length * cs
      → Returns
          (IsFile disk base cs runs pos n)
          (reader (add_u64 (run_physical base cs r) (pos - run_start cs r)) n)
  IsFile-read r pos n f h =
      let (a, b, c, d) = in_range_lem base cs r f.in_range in
      let q = base + r.lcn * cs + (pos - r.start_vcn * cs) in
      let place : add_u64 (run_physical base cs r) (pos - run_start cs r) ≡ q =
        rw (d f.present, a)
          (mod-eq_of_lt (omega (arith, f.in_range.physical f.present, f.below, f.from))) in
      subst (λ k. Returns (IsFile disk base cs runs pos n) (reader k n)) (sym place)
        (Returns-mono _ _ (reader q n)
          (λ bs h'. (
            h'.0,
            λ i l. (
              q + i,
              f.listed (pos + i) (q + i) (record {
                present = f.present;
                from = omega (arith, f.from);
                below = omega (arith, h);
                at = omega (arith, f.from);
              }),
              h'.1 i l,
            ),
          ))
          (s q n))

  -- A read and what follows it.
  IsFile-then :
      (pos n m : ℕ) (t rest : NtfsResult (List ℕ))
      → Returns (IsFile disk base cs runs pos n) t
      → Returns (IsFile disk base cs runs (pos + n) m) rest
      → Returns
          (IsFile disk base cs runs pos (n + m))
          (elim t [ err e ↦ err e | ok bytes ↦ prepend_bytes bytes rest ])
  IsFile-then pos n m (ok bytes) rest a b = IsFile-append disk base cs runs pos n m bytes rest a b
  IsFile-then pos n m (err e) rest a b = a

  -- What one round reads: a byte at least, within what remains and within the run.
  chunk_size_lem :
      (r : NtfsRun) (pos remaining : ℕ)
      → IsFound base cs pos runs r
      → 0 < remaining
      → (0 < chunk_size cs r pos remaining)
        × (chunk_size cs r pos remaining ≤ remaining)
        × (pos + chunk_size cs r pos remaining ≤ r.start_vcn * cs + r.length * cs)
  chunk_size_lem r pos remaining f h =
      let (a, b, c, d) = in_range_lem base cs r f.in_range in
      rw (a, b) (ground (arith, f.from, f.below))

  nothing_left : (pos : ℕ) → IsFile disk base cs runs pos 0 []
  nothing_left pos = (refl, λ i l. absurd (omega arith))

  read_runs-IsFile :
      (fuel pos remaining : ℕ)
      → remaining ≤ fuel
      → pos + remaining < 2 ^ 64
      → Returns
          (IsFile disk base cs runs pos remaining)
          (read_runs fuel reader base cs runs pos remaining)
  unfolding read_runs
  read_runs-IsFile zero pos remaining h k =
      let none_left : remaining ≡ 0 = omega arith in rw none_left (nothing_left pos)
  read_runs-IsFile (suc fuel) pos remaining h k = elim (Bool-cases (remaining == 0)) [
    | inl z ↦ let none_left : remaining ≡ 0 = (==_iff _ _).0 z in rw none_left (nothing_left pos)
    | inr more ↦ elim (Option-cases (find_run cs pos runs)) [
      | inl n ↦ rw (more, n, read_runs) (λ e. cc)
      | inr (r, e) ↦
          let f = find_run-IsFound base cs pos runs r v e in
          let c = chunk_size cs r pos remaining in
          let (p, q, w) = chunk_size_lem r pos remaining f (ground arith) in
          let next : add_u64 pos c ≡ pos + c = mod-eq_of_lt (omega arith) in
          let all : c + (remaining - c) ≡ remaining = omega arith in
          let rest = read_runs fuel reader base cs runs (add_u64 pos c) (remaining - c) in
          rw (more, e, read_runs)
            (subst
              (λ k.
                Returns (IsFile disk base cs runs pos k)
                  (elim (reader (add_u64 (run_physical base cs r) (pos - run_start cs r)) c) [
                    | err e ↦ err e
                    | ok bytes ↦ prepend_bytes bytes rest
                  ]))
              all
              (IsFile-then pos c (remaining - c) _ rest (IsFile-read r pos c f w) (
                subst
                  (λ k.
                    Returns (IsFile disk base cs runs k (remaining - c))
                      (read_runs fuel reader base cs runs (add_u64 pos c) (remaining - c)))
                  next
                  (read_runs-IsFile fuel (add_u64 pos c) (remaining - c) (omega arith)
                    (omega (arith, next))))))
    ]
  ]

-- If the reader gives what a disk holds or an error of its own, no address of a run of the MFT
-- wraps, and the size of the MFT is below 2 ^ 64, `readMFTLogical` comes to its end, and what
-- it returns without an error is as long as was asked for, each byte being that of the disk at
-- a place to which a run of the MFT maps it.
pub read_mft_logical-IsFile :
    (reader : Reader) (disk : Bytes) (n : Ntfs) (logical len : ℕ)
    → Serves reader disk
    → AllInRange n.partition.offset n.geometry.cluster_size n.mft_runs
    → n.mft_size < 2 ^ 64
    → Returns
        (IsFile disk n.partition.offset n.geometry.cluster_size n.mft_runs logical len)
        (read_mft_logical reader n logical len)
unfolding read_mft_logical
read_mft_logical-IsFile reader disk n logical len s v w =
    elim (Bool-cases (ltb n.mft_size logical || ltb (n.mft_size - logical) len)) [
      | inl t ↦ rw t (λ e. cc)
      | inr f ↦ rw f (
          read_runs-IsFile reader disk s n.partition.offset n.geometry.cluster_size n.mft_runs v len
            logical len (omega arith) (ground arith))
    ]
