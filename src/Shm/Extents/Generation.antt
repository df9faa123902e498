-- ===== src/Shm/Extents/Generation.antt =====
-- `coversGenerationLocked` decides whether one generation owns every byte of a range.
use tssniff.Prelude.{ℕ, ◌≤◌, ◌<◌, ◌≡◌, ◌↔◌, true, List, [], ◌∷◌, some, arith}
use tssniff.Shm.Extents.{ShmExtent, covers_from, covers_generation}
use tssniff.Shm.Extents.Owner.{owner, IsOrdered, owner_below}

-- One generation owns every byte of `[start, end)`.
abbrev pub Owns : ℕ → ℕ → ℕ → List ShmExtent → Type 0
Owns start end gen es = (x : ℕ) → start ≤ x → x < end → owner x es ≡ some gen

covers_from-Owns :
    (lo cursor : ℕ) (want : ShmExtent) (es : List ShmExtent)
    → IsOrdered lo es
    → covers_from cursor want es ≡ true
    → Owns cursor want.end want.gen es
unfolding covers_from
covers_from-Owns lo cursor want [] s e x p q = cc
covers_from-Owns lo cursor want (f ∷ es) (a, b, s) e x p q = ground (
  arith,
  λ (t : covers_from cursor want es ≡ true). covers_from-Owns f.end cursor want es s t x p q,
  λ (t : covers_from f.end want es ≡ true) (u : f.end ≤ x).
      covers_from-Owns f.end f.end want es s t x u q,
)

Owns-tail :
    (cursor cursor' end gen : ℕ) (f : ShmExtent) (es : List ShmExtent)
    → cursor ≤ cursor'
    → f.end ≤ cursor'
    → Owns cursor end gen (f ∷ es)
    → Owns cursor' end gen es
Owns-tail cursor cursor' end gen f es h k o x p q = ground (arith, o x)

Owns-covers_from :
    (lo cursor : ℕ) (want : ShmExtent) (es : List ShmExtent)
    → IsOrdered lo es
    → cursor < want.end
    → Owns cursor want.end want.gen es
    → covers_from cursor want es ≡ true
unfolding covers_from
Owns-covers_from lo cursor want [] s h o = cc (o cursor (omega arith) h)
Owns-covers_from lo cursor want (f ∷ es) (a, b, s) h o = ground (
  arith,
  o cursor,
  owner_below cursor f.end es s,
  Owns-covers_from f.end cursor want es s h,
  Owns-covers_from f.end f.end want es s,
  Owns-tail cursor cursor want.end want.gen f es (omega arith),
  Owns-tail cursor f.end want.end want.gen f es,
)

module _ (lo : ℕ) (want : ShmExtent) (es : List ShmExtent) (s : IsOrdered lo es) where
  -- On a list in order and for a nonempty extent, `coversGenerationLocked` holds exactly if the
  -- generation owns every byte of the extent.
  pub covers_generation_iff :
      want.start < want.end
      → (covers_generation want es ≡ true) ↔ Owns want.start want.end want.gen es
  unfolding covers_generation
  covers_generation_iff h =
      (covers_from-Owns lo want.start want es s, Owns-covers_from lo want.start want es s h)
