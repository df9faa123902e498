-- ===== src/Ranges.antt =====
-- Half-open byte ranges: the type of types.go, the helpers of shm.go, and the operations on range
-- lists at the end of ntfs.go. `sort.Slice` is modelled by insertion sort.
pub mod Points
pub mod Sort
pub mod Coalesce
pub mod Subtract
pub mod Search
mod Tests
use tssniff.Prelude.{
  ℕ, zero, suc, ◌+◌, ◌-◌, ◌/◌, ◌<◌, Bool, true, false, ◌&&◌, List, [], ◌∷◌, ◌++◌, ltb, leb, ◌==◌,
  if◌then◌else◌, length, get_or,
}

-- `ByteRange`: the bytes from `start` up to, but not including, `end`.
pub record ByteRange : Type 0 where
  pub start : ℕ
  pub end : ℕ

unfoldable pub max_u64 : ℕ → ℕ → ℕ
max_u64 a b = if ltb b a then a else b

unfoldable pub min_u64 : ℕ → ℕ → ℕ
min_u64 a b = if ltb a b then a else b

-- The order that the code hands to `sort.Slice`: by start, then by end.
unfoldable pub less : ByteRange → ByteRange → Bool
less a b = if a.start == b.start then ltb a.end b.end else ltb a.start b.start

unfoldable pub insert : ByteRange → List ByteRange → List ByteRange
insert r [] = r ∷ []
insert r (s ∷ rs) = if less s r then s ∷ insert r rs else r ∷ s ∷ rs

unfoldable pub sort : List ByteRange → List ByteRange
unfolding insert less
sort [] = []
sort (r ∷ rs) = insert r (sort rs)

-- `last.End = r.End` under its guard.
unfoldable pub extend : ByteRange → ByteRange → ByteRange
extend last r = if ltb last.end r.end then record last { end = r.end } else last

-- The loop of `coalesceByteRanges`, once `out` has an entry: `last` is its last entry, and what
-- stands before it is already returned.
unfoldable pub coalesce_from : ByteRange → List ByteRange → List ByteRange
unfolding extend
coalesce_from last [] = last ∷ []
coalesce_from last (r ∷ rs) = elim (leb r.end r.start) [
  | true ↦ coalesce_from last rs
  | false ↦ elim (leb r.start last.end) [
    | true ↦ coalesce_from (extend last r) rs
    | false ↦ last ∷ coalesce_from r rs
  ]
]

-- The loop while `out` is empty.
unfoldable pub coalesce_sorted : List ByteRange → List ByteRange
unfolding coalesce_from
coalesce_sorted [] = []
coalesce_sorted (r ∷ rs) = elim (leb r.end r.start) [
  | true ↦ coalesce_sorted rs
  | false ↦ coalesce_from r rs
]

unfoldable pub coalesce_byte_ranges : List ByteRange → List ByteRange
unfolding sort coalesce_sorted
coalesce_byte_ranges rs = coalesce_sorted (sort rs)

-- The first loop over `j`: drop the old ranges that end before the new one starts.
skip_before : ℕ → List ByteRange → List ByteRange
skip_before s [] = []
skip_before s (o ∷ os) = elim (leb o.end s) [ true ↦ skip_before s os | false ↦ o ∷ os ]

-- What is left of `[cursor, stop)` when the inner loop ends.
rest_piece : ℕ → ℕ → List ByteRange
rest_piece cursor stop = if ltb cursor stop then record { start = cursor; end = stop } ∷ [] else []

-- The part of `[cursor, stop)` before an old range.
gap_before : ℕ → ℕ → ByteRange → List ByteRange
unfolding min_u64
gap_before cursor stop o =
    if ltb cursor o.start then record { start = cursor; end = min_u64 o.start stop } ∷ [] else []

-- The inner loop over `k`, with the piece that follows it.
gaps : ℕ → ℕ → List ByteRange → List ByteRange
unfolding rest_piece gap_before
gaps cursor stop [] = rest_piece cursor stop
gaps cursor stop (o ∷ os) = elim (ltb o.start stop) [
  | false ↦ rest_piece cursor stop
  | true ↦ elim (leb o.end cursor) [
    | true ↦ gaps cursor stop os
    | false ↦
        gap_before cursor stop o
        ++ elim (leb stop o.end) [ true ↦ rest_piece o.end stop | false ↦ gaps o.end stop os ]
  ]
]

-- The outer loop; its second argument is `oldRanges[j:]`.
subtract_from : List ByteRange → List ByteRange → List ByteRange
unfolding skip_before gaps
subtract_from [] os = []
subtract_from (n ∷ ns) os = elim (leb n.end n.start) [
  | true ↦ subtract_from ns os
  | false ↦ gaps n.start n.end (skip_before n.start os) ++ subtract_from ns (skip_before n.start os)
]

pub subtract_ranges : List ByteRange → List ByteRange → List ByteRange
unfolding subtract_from coalesce_byte_ranges
subtract_ranges new old = coalesce_byte_ranges (subtract_from new old)

-- `sort.Search`: the least index in `[i, j)` at which `f` holds, or `j`; the fuel is the width.
search_from : ℕ → (ℕ → Bool) → ℕ → ℕ → ℕ
search_from zero f i j = i
search_from (suc fuel) f i j = elim (ltb i j) [
  | false ↦ i
  | true ↦ elim (f ((i + j) / 2)) [
    | false ↦ search_from fuel f ((i + j) / 2 + 1) j
    | true ↦ search_from fuel f i ((i + j) / 2)
  ]
]

sort_search : ℕ → (ℕ → Bool) → ℕ
unfolding search_from
sort_search n f = search_from n f 0 n

abbrev no_range : ByteRange
no_range = record { start = 0; end = 0 }

-- `rangesOverlapSnapshot`
pub ranges_overlap_snapshot : List ByteRange → ℕ → ℕ → Bool
unfolding sort_search
ranges_overlap_snapshot ranges start end =
    if leb end start
    then false
    else let idx = sort_search (length ranges) (λ i. ltb start (get_or ranges i no_range).end) in
      ltb idx (length ranges) && ltb (get_or ranges idx no_range).start end
