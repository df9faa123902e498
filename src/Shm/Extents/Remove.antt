-- ===== src/Shm/Extents/Remove.antt =====
-- `removeRangeGenerationLocked`: the bytes of the range that the generation owns lose their owner,
-- and every other byte keeps it.
use tssniff.Prelude.{
  ℕ, ◌≤◌, ◌<◌, ◌≡◌, refl, ◌∙◌, true, ◌&&◌, List, [], ◌∷◌, Option, none, some, arith, ltb, leb, ◌==◌,
  if◌then◌else◌,
}
use tssniff.Shm.Extents.{ShmExtent, remove_one, remove_from, remove_range_generation}
use tssniff.Shm.Extents.Owner.{
  within, owner, or_else, IsOrdered, IsOrdered-append, EndsBy, owner-append, owner_below,
}
use tssniff.Shm.Extents.Coalesce.{owner-coalesce_shm, coalesce_shm-IsOrdered}

-- The owner after the release, from the owner before.
abbrev pub released : ℕ → ℕ → ℕ → ℕ → Option ℕ → Option ℕ
released x start end gen none = none
released x start end gen (some g) =
    if (g == gen) && (leb start x && ltb x end) then none else some g

owner-remove_one :
    (x start end gen : ℕ) (e : ShmExtent) (o : Option ℕ)
    → (within x e ≡ true → o ≡ none)
    → or_else (owner x (remove_one start end gen e)) (released x start end gen o)
      ≡ released x start end gen (if within x e then some e.gen else o)
unfolding remove_one
owner-remove_one x start end gen e o h = ground arith

owner-remove_from :
    (x start end gen lo : ℕ) (es : List ShmExtent)
    → IsOrdered lo es
    → owner x (remove_from start end gen es) ≡ released x start end gen (owner x es)
unfolding remove_from
owner-remove_from x start end gen lo [] s = refl
owner-remove_from x start end gen lo (e ∷ es) (a, b, s) =
    owner-append x (remove_one start end gen e) (remove_from start end gen es)
    ∙ rw (owner-remove_from x start end gen e.end es s) (
        owner-remove_one x start end gen e (owner x es)
          (λ h. owner_below x e.end es s (ground arith)))

remove_one-IsOrdered :
    (start end gen lo : ℕ) (e : ShmExtent)
    → start ≤ end
    → lo ≤ e.start
    → e.start < e.end
    → IsOrdered lo (remove_one start end gen e) × EndsBy e.end (remove_one start end gen e)
unfolding remove_one
remove_one-IsOrdered start end gen lo e p l h = ground arith

remove_from-IsOrdered :
    (start end gen lo : ℕ) (es : List ShmExtent)
    → start ≤ end
    → IsOrdered lo es
    → IsOrdered lo (remove_from start end gen es)
unfolding remove_from
remove_from-IsOrdered start end gen lo [] p s = tt
remove_from-IsOrdered start end gen lo (e ∷ es) p (a, b, s) =
    let one = remove_one-IsOrdered start end gen lo e p a b in
    IsOrdered-append (remove_one start end gen e) (remove_from start end gen es) (omega arith) one.0
      one.1 (remove_from-IsOrdered start end gen e.end es p s)

module _ (start end gen lo : ℕ) (es : List ShmExtent) (p : start ≤ end) (s : IsOrdered lo es) where
  -- `removeRangeGenerationLocked` on a list in order takes the owner from the bytes of the
  -- range that the generation owns, and from no other.
  pub owner-remove_range_generation :
      (x : ℕ)
      → owner x (remove_range_generation start end gen es) ≡ released x start end gen (owner x es)
  unfolding remove_range_generation
  owner-remove_range_generation x =
      owner-coalesce_shm x lo (remove_from start end gen es)
        (remove_from-IsOrdered start end gen lo es p s)
      ∙ owner-remove_from x start end gen lo es s

  pub remove_range_generation-IsOrdered : IsOrdered lo (remove_range_generation start end gen es)
  unfolding remove_range_generation
  remove_range_generation-IsOrdered =
      coalesce_shm-IsOrdered lo (remove_from start end gen es)
        (remove_from-IsOrdered start end gen lo es p s)
