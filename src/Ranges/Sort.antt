-- ===== src/Ranges/Sort.antt =====
-- The sort before a coalescing pass: it orders by start and keeps the set of bytes.
use tssniff.Prelude.{ℕ, ◌≤◌, ◌≡◌, refl, List, [], ◌∷◌, arith}
use tssniff.Ranges.{ByteRange, less, insert, sort}
use tssniff.Ranges.Points.{covers}

-- Starts do not fall along the list, and none is below `lo`.
abbrev pub IsAscending : ℕ → List ByteRange → Type 0
IsAscending lo [] = Unit {0}
IsAscending lo (r ∷ rs) = (lo ≤ r.start) × IsAscending r.start rs

pub IsAscending-mono :
    {lo lo' : ℕ} (rs : List ByteRange) → lo' ≤ lo → IsAscending lo rs → IsAscending lo' rs
IsAscending-mono [] h s = tt
IsAscending-mono (r ∷ rs) h (a, s) = (omega arith, s)

covers-insert :
    (x : ℕ) (r : ByteRange) (rs : List ByteRange) → covers x (insert r rs) ≡ covers x (r ∷ rs)
unfolding insert
covers-insert x r [] = refl
covers-insert x r (s ∷ rs) = ground (arith, covers-insert x r rs)

pub covers-sort : (x : ℕ) (rs : List ByteRange) → covers x (sort rs) ≡ covers x rs
unfolding sort
covers-sort x [] = refl
covers-sort x (r ∷ rs) = ground (arith, covers-insert x r (sort rs), covers-sort x rs)

insert-IsAscending :
    (lo : ℕ) (r : ByteRange) (rs : List ByteRange)
    → lo ≤ r.start
    → IsAscending lo rs
    → IsAscending lo (insert r rs)
unfolding insert less
insert-IsAscending lo r [] h s = (h, tt)
insert-IsAscending lo r (s ∷ rs) h (a, t) =
    ground
      (arith, insert-IsAscending s.start r rs, IsAscending-mono {lo = s.start} {lo' = r.start} rs)

pub sort-IsAscending : (rs : List ByteRange) → IsAscending 0 (sort rs)
unfolding sort
sort-IsAscending [] = tt
sort-IsAscending (r ∷ rs) = insert-IsAscending 0 r (sort rs) (omega arith) (sort-IsAscending rs)
