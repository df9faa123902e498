-- ===== src/Mbr/Tests.antt =====
-- Runs of the search on a sector whose second entry is NTFS.
use tssniff.Prelude.{ℕ, ◌≡◌, refl, List, [], ◌∷◌, ◌++◌, none, replicate}
use tssniff.Mbr.{Partition, found, le_u16, le_u32, entry, find_entry, find_mbr_partition}
use tssniff.Mbr.First.{Outcome, find_mbr_partition-Outcome}

-- An entry of type `kind` from block `lba` on.
abbrev row : ℕ → ℕ → ℕ → List ℕ
row kind lba n = 0 ∷ 0 ∷ 0 ∷ 0 ∷ kind ∷ 0 ∷ 0 ∷ 0 ∷ lba ∷ 0 ∷ 0 ∷ 0 ∷ n ∷ 0 ∷ 0 ∷ 0 ∷ []

abbrev sector : List ℕ
sector =
    replicate 446 0
    ++ (row 0x0C 1 9 ++ (row 0x07 10 20 ++ (row 0x07 40 5 ++ (row 0 0 0 ++ (0x55 ∷ 0xAA ∷ [])))))

abbrev second : Partition
second = record { offset = 5120; size = 10240; kind = 0x07 }

sector-found : find_mbr_partition sector none ≡ found second
unfolding find_mbr_partition find_entry entry le_u16 le_u32
sector-found = refl

find_mbr_partition-Outcome_example : Outcome sector none (find_mbr_partition sector none)
find_mbr_partition-Outcome_example = find_mbr_partition-Outcome sector none
