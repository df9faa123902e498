-- ===== src/Shm/Extents/Coalesce.antt =====
-- `coalesceSHM` on an ordered list keeps the owner of every byte, and the order.
use tssniff.Prelude.{ℕ, ◌≤◌, ◌<◌, ◌≡◌, refl, ◌∙◌, ap, List, [], ◌∷◌, arith}
use tssniff.Shm.Extents.{
  ShmExtent, less, insert, sort, coalesce_from, coalesce_sorted, coalesce_shm,
}
use tssniff.Shm.Extents.Owner.{owner, IsOrdered}

insert_front :
    (e : ShmExtent) (es : List ShmExtent)
    → e.start < e.end
    → IsOrdered e.end es
    → insert e es ≡ e ∷ es
unfolding insert less
insert_front e [] h s = refl
insert_front e (f ∷ es) h (a, b, s) = ground arith

-- The sort changes nothing.
sort_of_IsOrdered : (lo : ℕ) (es : List ShmExtent) → IsOrdered lo es → sort es ≡ es
unfolding sort
sort_of_IsOrdered lo [] s = refl
sort_of_IsOrdered lo (e ∷ es) (a, b, s) =
    ap (insert e) (sort_of_IsOrdered e.end es s) ∙ insert_front e es b s

owner-coalesce_from :
    (x : ℕ) (last : ShmExtent) (es : List ShmExtent)
    → last.start < last.end
    → IsOrdered last.end es
    → owner x (coalesce_from last es) ≡ owner x (last ∷ es)
unfolding coalesce_from
owner-coalesce_from x last [] h s = refl
owner-coalesce_from x last (e ∷ es) h (a, b, s) =
    ground (
      arith,
      owner-coalesce_from x (record last { end = e.end }) es,
      owner-coalesce_from x e es b s,
    )

coalesce_from-IsOrdered :
    (lo : ℕ) (last : ShmExtent) (es : List ShmExtent)
    → lo ≤ last.start
    → last.start < last.end
    → IsOrdered last.end es
    → IsOrdered lo (coalesce_from last es)
unfolding coalesce_from
coalesce_from-IsOrdered lo last [] l h s = (l, h, tt)
coalesce_from-IsOrdered lo last (e ∷ es) l h (a, b, s) = ground (
  arith,
  coalesce_from-IsOrdered lo (record last { end = e.end }) es l,
  coalesce_from-IsOrdered last.end e es a b s,
)

pub owner-coalesce_shm :
    (x lo : ℕ) (es : List ShmExtent) → IsOrdered lo es → owner x (coalesce_shm es) ≡ owner x es
unfolding coalesce_shm
owner-coalesce_shm x lo es s =
    ap (λ fs. owner x (coalesce_sorted fs)) (sort_of_IsOrdered lo es s) ∙ kept lo es s
  where
    kept :
        (lo : ℕ) (fs : List ShmExtent) → IsOrdered lo fs → owner x (coalesce_sorted fs) ≡ owner x fs
    kept lo [] s = refl
    kept lo (e ∷ fs) (a, b, s) = ground (arith, owner-coalesce_from x e fs b s)

pub coalesce_shm-IsOrdered :
    (lo : ℕ) (es : List ShmExtent) → IsOrdered lo es → IsOrdered lo (coalesce_shm es)
unfolding coalesce_shm
coalesce_shm-IsOrdered lo es s = rw (sort_of_IsOrdered lo es s) (kept lo es s)
  where
    kept : (lo : ℕ) (fs : List ShmExtent) → IsOrdered lo fs → IsOrdered lo (coalesce_sorted fs)
    kept lo [] s = tt
    kept lo (e ∷ fs) (a, b, s) = ground (arith, coalesce_from-IsOrdered lo e fs a b s)
