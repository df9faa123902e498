-- ===== src/Ntfs/Fixup/Sectors.antt =====
-- What applyNTFSFixup does to the sectors of a record.
use tssniff.Prelude.{ℕ, ◌+◌, ◌*◌, ◌≤◌, ◌<◌, ◌≡◌, ◌≢◌, true, false, List, length, get_or}
use tssniff.Ntfs.{NtfsResult, ok, err, fixup_mismatch}
use tssniff.Ntfs.Fixup.{trailer, matches, restore}

-- What the loop gives for the sectors from `i` up to `stop`.
abbrev pub Outcome : List ℕ → ℕ → ℕ → ℕ → ℕ → NtfsResult (List ℕ) → Type 0
Outcome rec usa stride i stop (ok out) =
    (length out ≡ length rec)
    × ((k : ℕ)
        → i ≤ k
        → k < stop
        → (matches rec usa (trailer stride k) ≡ true)
          × (get_or out (trailer stride k) 0 ≡ get_or rec (usa + 2 + 2 * k) 0)
          × (get_or out (trailer stride k + 1) 0 ≡ get_or rec (usa + 3 + 2 * k) 0))
    × ((x : ℕ)
        → ((k : ℕ) → i ≤ k → k < stop → (x ≢ trailer stride k) × (x ≢ trailer stride k + 1))
        → get_or out x 0 ≡ get_or rec x 0)
Outcome rec usa stride i stop (err e) =
    (e ≡ fixup_mismatch)
    × ((k : ℕ) × (i ≤ k) × (k < stop) × (matches rec usa (trailer stride k) ≡ false))

-- The array and the sectors from `i` up to `stop` lie where they should.
record Layout (len usa stride i stop : ℕ) : Type 0 where
  inside : usa + 2 * stop + 4 ≤ stride
  whole : stride * stop ≤ len
  ordered : i ≤ stop

module _ (rec : List ℕ) (usa stride i stop : ℕ) (l : Layout (length rec) usa stride i stop)
    (more : i < stop) where
  abbrev t : ℕ
  t = trailer stride i

  abbrev rec' : List ℕ
  rec' = restore rec t (usa + 2 + 2 * i)

  abbrev Others : List ℕ → Type 0
  Others out =
      (x : ℕ)
      → ((k : ℕ) → i + 1 ≤ k → k < stop → (x ≢ trailer stride k) × (x ≢ trailer stride k + 1))
      → get_or out x 0 ≡ get_or rec' x 0
