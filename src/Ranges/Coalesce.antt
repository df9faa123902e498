-- ===== src/Ranges/Coalesce.antt =====
-- `coalesceByteRanges` gives the canonical form of the set of bytes that its input stands for.
use tssniff.Prelude.{ℕ, suc, ◌≤◌, ◌<◌, ◌≡◌, refl, ◌∙◌, ◌||◌, List, [], ◌∷◌, arith}
use tssniff.Ranges.{ByteRange, extend, coalesce_from, coalesce_sorted, coalesce_byte_ranges, sort}
use tssniff.Ranges.Points.{holds, covers, IsSeparated}
use tssniff.Ranges.Sort.{IsAscending, IsAscending-mono, covers-sort, sort-IsAscending}

covers-coalesce_from :
    (x : ℕ) (last : ByteRange) (rs : List ByteRange)
    → last.start < last.end
    → IsAscending last.start rs
    → covers x (coalesce_from last rs) ≡ (holds x last || covers x rs)
unfolding coalesce_from
covers-coalesce_from x last [] h s = refl
covers-coalesce_from x last (r ∷ rs) h (a, s) = ground (
  arith,
  covers-coalesce_from x last rs h,
  covers-coalesce_from x (extend last r) rs,
  covers-coalesce_from x r rs,
  IsAscending-mono {lo = r.start} {lo' = last.start} rs,
)

covers-coalesce_sorted :
    (x lo : ℕ) (rs : List ByteRange)
    → IsAscending lo rs
    → covers x (coalesce_sorted rs) ≡ covers x rs
unfolding coalesce_sorted
covers-coalesce_sorted x lo [] s = refl
covers-coalesce_sorted x lo (r ∷ rs) (a, s) =
    ground (arith, covers-coalesce_sorted x r.start rs, covers-coalesce_from x r rs)

coalesce_from-IsSeparated :
    (lo : ℕ) (last : ByteRange) (rs : List ByteRange)
    → lo ≤ last.start
    → last.start < last.end
    → IsAscending last.start rs
    → IsSeparated lo (coalesce_from last rs)
unfolding coalesce_from
coalesce_from-IsSeparated lo last [] l h s = (l, h, tt)
coalesce_from-IsSeparated lo last (r ∷ rs) l h (a, s) = ground (
  arith,
  coalesce_from-IsSeparated lo last rs l h,
  coalesce_from-IsSeparated lo (extend last r) rs,
  coalesce_from-IsSeparated (suc last.end) r rs,
  IsAscending-mono {lo = r.start} {lo' = last.start} rs,
)

coalesce_sorted-IsSeparated :
    (lo : ℕ) (rs : List ByteRange) → IsAscending lo rs → IsSeparated lo (coalesce_sorted rs)
unfolding coalesce_sorted
coalesce_sorted-IsSeparated lo [] s = tt
coalesce_sorted-IsSeparated lo (r ∷ rs) (a, s) = ground (
  arith,
  coalesce_sorted-IsSeparated lo rs,
  coalesce_from-IsSeparated lo r rs,
  IsAscending-mono {lo = r.start} {lo' = lo} rs,
)

-- `coalesceByteRanges` keeps the set of bytes of any list of ranges.
pub covers-coalesce_byte_ranges :
    (x : ℕ) (rs : List ByteRange) → covers x (coalesce_byte_ranges rs) ≡ covers x rs
unfolding coalesce_byte_ranges
covers-coalesce_byte_ranges x rs =
    covers-coalesce_sorted x 0 (sort rs) (sort-IsAscending rs) ∙ covers-sort x rs

-- `coalesceByteRanges` returns nonempty ranges in ascending order with room between each two,
-- whatever list it is given.
pub coalesce_byte_ranges-IsSeparated :
    (rs : List ByteRange) → IsSeparated 0 (coalesce_byte_ranges rs)
unfolding coalesce_byte_ranges
coalesce_byte_ranges-IsSeparated rs = coalesce_sorted-IsSeparated 0 (sort rs) (sort-IsAscending rs)
