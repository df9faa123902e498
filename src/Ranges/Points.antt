-- ===== src/Ranges/Points.antt =====
-- What a list of ranges stands for: the set of byte offsets in it, and the canonical form.
use tssniff.Prelude.{
  ℕ, suc, ◌≤◌, ◌<◌, ◌≡◌, refl, Bool, false, ◌&&◌, ◌||◌, List, [], ◌∷◌, ◌++◌, arith, ltb, leb,
}
use tssniff.Ranges.{ByteRange}

abbrev pub holds : ℕ → ByteRange → Bool
holds x r = leb r.start x && ltb x r.end

-- Whether some range of the list has the byte at `x`.
abbrev pub covers : ℕ → List ByteRange → Bool
covers x [] = false
covers x (r ∷ rs) = holds x r || covers x rs

-- Ascending and nonempty ranges with room between each two, all from `lo` on.
abbrev pub IsSeparated : ℕ → List ByteRange → Type 0
IsSeparated lo [] = Unit {0}
IsSeparated lo (r ∷ rs) = (lo ≤ r.start) × (r.start < r.end) × IsSeparated (suc r.end) rs

pub covers-append :
    (x : ℕ) (rs ss : List ByteRange) → covers x (rs ++ ss) ≡ (covers x rs || covers x ss)
covers-append x [] ss = refl
covers-append x (r ∷ rs) ss = ground (arith, covers-append x rs ss)

pub covers_below :
    (x lo : ℕ) (rs : List ByteRange) → IsSeparated lo rs → x < lo → covers x rs ≡ false
covers_below x lo [] s h = refl
covers_below x lo (r ∷ rs) (a, b, s) h = ground (arith, covers_below x (suc r.end) rs s)

pub IsSeparated-mono :
    {lo lo' : ℕ} (rs : List ByteRange) → lo' ≤ lo → IsSeparated lo rs → IsSeparated lo' rs
IsSeparated-mono [] h s = tt
IsSeparated-mono (r ∷ rs) h (a, b, s) = (omega arith, b, s)
