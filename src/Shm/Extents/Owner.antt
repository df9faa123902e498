-- ===== src/Shm/Extents/Owner.antt =====
-- What an extent list stands for: the generation that owns each byte, and the order of the list.
use tssniff.Prelude.{
  ℕ, ◌≤◌, ◌<◌, ◌≡◌, refl, Bool, ◌&&◌, List, [], ◌∷◌, ◌++◌, Option, none, some, arith, ltb, leb,
  if◌then◌else◌,
}
use tssniff.Shm.Extents.{ShmExtent}

abbrev pub within : ℕ → ShmExtent → Bool
within x e = leb e.start x && ltb x e.end

-- The generation of the first extent that has the byte at `x`.
abbrev pub owner : ℕ → List ShmExtent → Option ℕ
owner x [] = none
owner x (e ∷ es) = if within x e then some e.gen else owner x es

-- Sorted, nonempty, non-overlapping extents, all from `lo` on.
abbrev pub IsOrdered : ℕ → List ShmExtent → Type 0
IsOrdered lo [] = Unit {0}
IsOrdered lo (e ∷ es) = (lo ≤ e.start) × (e.start < e.end) × IsOrdered e.end es

abbrev pub or_else : Option ℕ → Option ℕ → Option ℕ
or_else none o = o
or_else (some g) o = some g

pub owner-append :
    (x : ℕ) (es fs : List ShmExtent) → owner x (es ++ fs) ≡ or_else (owner x es) (owner x fs)
owner-append x [] fs = refl
owner-append x (e ∷ es) fs = ground (arith, owner-append x es fs)

pub owner_below : (x lo : ℕ) (es : List ShmExtent) → IsOrdered lo es → x < lo → owner x es ≡ none
owner_below x lo [] s h = refl
owner_below x lo (e ∷ es) (a, b, s) h = ground (arith, owner_below x e.end es s)

pub IsOrdered-mono :
    {lo lo' : ℕ} (es : List ShmExtent) → lo' ≤ lo → IsOrdered lo es → IsOrdered lo' es
IsOrdered-mono [] h s = tt
IsOrdered-mono (e ∷ es) h (a, b, s) = (omega arith, b, s)

-- Every extent ends at `hi` or before.
abbrev pub EndsBy : ℕ → List ShmExtent → Type 0
EndsBy hi [] = Unit {0}
EndsBy hi (e ∷ es) = (e.end ≤ hi) × EndsBy hi es

pub IsOrdered-append :
    {lo hi : ℕ} (es fs : List ShmExtent)
    → lo ≤ hi
    → IsOrdered lo es
    → EndsBy hi es
    → IsOrdered hi fs
    → IsOrdered lo (es ++ fs)
IsOrdered-append [] fs h s t u = IsOrdered-mono fs h u
IsOrdered-append (e ∷ es) fs h (a, b, s) (c, t) u = (a, b, IsOrdered-append es fs c s t u)
