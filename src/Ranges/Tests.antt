-- ===== src/Ranges/Tests.antt =====
-- Runs of the range routines on small lists.
use tssniff.Prelude.{ℕ, ◌≡◌, true, List, [], ◌∷◌, arith}
use tssniff.Ranges.{ByteRange, subtract_ranges}
use tssniff.Ranges.Points.{covers}
use tssniff.Ranges.Subtract.{covers-subtract_ranges}

abbrev range : ℕ → ℕ → ByteRange
range a b = record { start = a; end = b }

abbrev known : List ByteRange
known = range 4 8 ∷ range 20 30 ∷ []

abbrev fresh : List ByteRange
fresh = range 0 10 ∷ range 25 40 ∷ []

covers-subtract_ranges_example : covers 9 (subtract_ranges fresh known) ≡ true
covers-subtract_ranges_example =
    covers-subtract_ranges 9 fresh known (omega arith, omega arith, (omega arith, omega arith, tt))
      (omega arith, omega arith, (omega arith, omega arith, tt))
