-- ===== src/Shm/Extents/Replace.antt =====
-- `replaceRangeLocked`: the new extent owns its bytes, every other byte keeps its owner.
use tssniff.Prelude.{
  ℕ, ◌≤◌, ◌<◌, ◌≡◌, ◌⊎◌, ◌∙◌, Bool, true, false, not, ◌||◌, List, [], ◌∷◌, Option, none, some,
  arith, leb, if◌then◌else◌,
}
use tssniff.Shm.Extents.{ShmExtent, replace_one, replace_from, replace_range}
use tssniff.Shm.Extents.Owner.{within, owner, or_else, IsOrdered, owner-append}
use tssniff.Shm.Extents.Coalesce.{owner-coalesce_shm, coalesce_shm-IsOrdered}

-- What the list that the loop builds has at `x`, where `o` is the owner before.
abbrev replaced : ℕ → ShmExtent → Bool → Option ℕ → Option ℕ
replaced x n inserted o = if within x n then (if inserted then none else some n.gen) else o

owner-replace_one :
    (x : ℕ) (n : ShmExtent) (inserted : Bool) (e : ShmExtent) (o : Option ℕ)
    → or_else
        (owner x (replace_one n inserted e))
        (replaced x n (inserted || not (leb e.end n.start)) o)
      ≡ replaced x n inserted (if within x e then some e.gen else o)
unfolding replace_one
owner-replace_one x n inserted e o = ground arith

owner-replace_from :
    (x : ℕ) (n : ShmExtent) (inserted : Bool) (es : List ShmExtent)
    → owner x (replace_from n inserted es) ≡ replaced x n inserted (owner x es)
unfolding replace_from
owner-replace_from x n inserted [] = ground arith
owner-replace_from x n inserted (e ∷ es) =
    owner-append x (replace_one n inserted e)
      (replace_from n (inserted || not (leb e.end n.start)) es)
    ∙ rw (owner-replace_from x n (inserted || not (leb e.end n.start)) es)
        (owner-replace_one x n inserted e (owner x es))

-- Once the new extent is in, the rest of the list starts where it ends.
after-IsOrdered :
    (lo b : ℕ) (n : ShmExtent) (es : List ShmExtent)
    → n.start ≤ lo
    → (b ≤ n.end) ⊎ (b ≤ lo)
    → IsOrdered lo es
    → IsOrdered b (replace_from n true es)
unfolding replace_from replace_one
after-IsOrdered lo b n [] p q s = tt
after-IsOrdered lo b n (e ∷ es) p q (a, c, s) =
    ground (arith, after-IsOrdered e.end e.end n es, after-IsOrdered e.end b n es)

replace_from-IsOrdered :
    (lo : ℕ) (n : ShmExtent) (es : List ShmExtent)
    → lo ≤ n.start
    → n.start < n.end
    → IsOrdered lo es
    → IsOrdered lo (replace_from n false es)
unfolding replace_from replace_one
replace_from-IsOrdered lo n [] p h s = (p, h, tt)
replace_from-IsOrdered lo n (e ∷ es) p h (a, b, s) = ground (
  arith,
  replace_from-IsOrdered e.end n es,
  after-IsOrdered e.end e.end n es,
  after-IsOrdered e.end n.end n es,
)

module _ (n : ShmExtent) (es : List ShmExtent) (h : n.start < n.end) (s : IsOrdered 0 es) where
  -- `replaceRangeLocked` with a nonempty extent, on a list in order, makes its generation the
  -- owner of its bytes and leaves every other byte its owner.
  pub owner-replace_range :
      (x : ℕ) → owner x (replace_range n es) ≡ (if within x n then some n.gen else owner x es)
  unfolding replace_range
  owner-replace_range x =
      owner-coalesce_shm x 0 (replace_from n false es)
        (replace_from-IsOrdered 0 n es (omega arith) h s)
      ∙ owner-replace_from x n false es

  -- `replaceRangeLocked` with a nonempty extent keeps the list sorted, nonempty by nonempty
  -- extent, and disjoint.
  pub replace_range-IsOrdered : IsOrdered 0 (replace_range n es)
  unfolding replace_range
  replace_range-IsOrdered =
      coalesce_shm-IsOrdered 0 (replace_from n false es)
        (replace_from-IsOrdered 0 n es (omega arith) h s)
