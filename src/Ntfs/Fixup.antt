-- ===== src/Ntfs/Fixup.antt =====
-- `applyNTFSFixup`. The slices `usn` and `repl` are views of the record, so they are read from it
-- as it stands in each round.
pub mod Restore
pub mod Sectors
use tssniff.Prelude.{
  ℕ, zero, suc, ◌+◌, ◌-◌, ◌*◌, ◌/◌, ◌%◌, Bool, true, false, not, ◌||◌, ◌&&◌, List, ltb, ◌==◌,
  if◌then◌else◌, length, get_or, set,
}
use tssniff.Ntfs.{
  NtfsResult, ok, err, invalid_sector_size, invalid_record_geometry, invalid_update_sequence,
  fixup_mismatch,
}
use tssniff.Ntfs.Bytes.{le_at}

-- Where the last two bytes of sector `i` stand.
unfoldable pub trailer : ℕ → ℕ → ℕ
trailer stride i = stride * (i + 1) - 2

-- Whether the sector ends in the update sequence number.
unfoldable pub matches : List ℕ → ℕ → ℕ → Bool
matches rec usa t =
    get_or rec t 0 == get_or rec usa 0 && get_or rec (t + 1) 0 == get_or rec (usa + 1) 0

-- The two bytes at `t` are replaced by those at `repl`.
unfoldable pub restore : List ℕ → ℕ → ℕ → List ℕ
restore rec t repl =
    let rec' = set rec t (get_or rec repl 0) in set rec' (t + 1) (get_or rec' (repl + 1) 0)

-- The loop from sector `i` on, with `n` sectors left.
unfoldable pub fix_sectors : ℕ → ℕ → ℕ → ℕ → List ℕ → NtfsResult (List ℕ)
fix_sectors zero i usa stride rec = ok rec
fix_sectors (suc n) i usa stride rec = elim (matches rec usa (trailer stride i)) [
  | false ↦ err fixup_mismatch
  | true ↦ fix_sectors n (i + 1) usa stride (restore rec (trailer stride i) (usa + 2 + 2 * i))
]

unfoldable pub apply_fixup : List ℕ → ℕ → NtfsResult (List ℕ)
apply_fixup rec stride =
    if stride == 0
    then err invalid_sector_size
    else if length rec == 0 || (not (length rec % stride == 0) || ltb (length rec) 8)
    then err invalid_record_geometry
    else let usa = le_at 2 rec 4 in
      let usa_count = le_at 2 rec 6 in
      let sectors = length rec / stride in
      if ltb usa 8 || (not (usa_count == sectors + 1) || ltb (length rec) (usa + usa_count * 2))
      then err invalid_update_sequence
      else fix_sectors sectors 0 usa stride rec
