-- ===== src/Ntfs/Observe/Merged.antt =====
-- What `ObserveMFTWrite` merges into its set of records once record 0 was refreshed.
use tssniff.Prelude.{ℕ, ◌≡◌, ◌||◌, List, ltb, arith}
use tssniff.Ntfs.Ids.{numbers, contains}
use tssniff.Ntfs.Ids.Sets.{contains-append, contains-numbers}
use tssniff.Ntfs.Observe.{distinct, merged_ids}

-- What `ObserveMFTWrite` merges once record 0 was refreshed: the merged set has the records of
-- the first set, and beside them the numbers below the size of the second set, whatever that
-- set holds.
pub contains-merged_ids :
    (ids new_ids : List ℕ) (k : ℕ)
    → contains (merged_ids ids new_ids) k ≡ (contains ids k || ltb k (distinct new_ids))
unfolding merged_ids
contains-merged_ids ids new_ids k = ground (
  arith,
  contains-append ids (numbers (distinct new_ids) 0) k,
  contains-numbers (distinct new_ids) 0 k,
)
