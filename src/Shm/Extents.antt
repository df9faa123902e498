-- ===== src/Shm/Extents.antt =====
-- The extent list of the overlay (shm.go): which generation owns which bytes, and how a write or
-- a release changes that. `sort.Slice` is modelled by insertion sort.
pub mod Owner
pub mod Coalesce
pub mod Replace
pub mod Remove
pub mod Generation
use tssniff.Prelude.{
  ℕ, Bool, true, false, not, ◌||◌, List, [], ◌∷◌, ◌++◌, ltb, leb, ◌==◌, if◌then◌else◌, ◌&&◌,
}

-- `ShmExtent`
pub record ShmExtent : Type 0 where
  pub start : ℕ
  pub end : ℕ
  pub gen : ℕ

-- The order that `coalesceSHM` hands to `sort.Slice`.
less : ShmExtent → ShmExtent → Bool
less a b = if a.start == b.start then ltb a.end b.end else ltb a.start b.start

insert : ShmExtent → List ShmExtent → List ShmExtent
insert e [] = e ∷ []
insert e (f ∷ es) = if less f e then f ∷ insert e es else e ∷ f ∷ es

sort : List ShmExtent → List ShmExtent
unfolding insert less
sort [] = []
sort (e ∷ es) = insert e (sort es)

-- The loop of `coalesceSHM`, once `out` has an entry: `last` is its last entry.
coalesce_from : ShmExtent → List ShmExtent → List ShmExtent
coalesce_from last [] = last ∷ []
coalesce_from last (e ∷ es) = elim (leb e.end e.start) [
  | true ↦ coalesce_from last es
  | false ↦ elim ((last.end == e.start) && (last.gen == e.gen)) [
    | true ↦ coalesce_from (record last { end = e.end }) es
    | false ↦ last ∷ coalesce_from e es
  ]
]

-- The loop while `out` is empty.
coalesce_sorted : List ShmExtent → List ShmExtent
unfolding coalesce_from
coalesce_sorted [] = []
coalesce_sorted (e ∷ es) = elim (leb e.end e.start) [
  | true ↦ coalesce_sorted es
  | false ↦ coalesce_from e es
]

pub coalesce_shm : List ShmExtent → List ShmExtent
unfolding sort coalesce_sorted
coalesce_shm es = coalesce_sorted (sort es)

-- What an old extent keeps before `start`, and from `end` on.
piece_before : ℕ → ShmExtent → List ShmExtent
piece_before start e = if ltb e.start start then record e { end = start } ∷ [] else []

piece_after : ℕ → ShmExtent → List ShmExtent
piece_after end e = if ltb end e.end then record e { start = end } ∷ [] else []

-- The new extent, unless it is in already.
pending : ShmExtent → Bool → List ShmExtent
pending n inserted = if inserted then [] else n ∷ []

-- What one round of the loop of `replaceRangeLocked` appends for the old extent `e`.
replace_one : ShmExtent → Bool → ShmExtent → List ShmExtent
unfolding pending piece_before piece_after
replace_one n inserted e =
    if leb e.end n.start
    then e ∷ []
    else if leb n.end e.start
    then pending n inserted ++ (e ∷ [])
    else piece_before n.start e ++ (pending n inserted ++ piece_after n.end e)

replace_from : ShmExtent → Bool → List ShmExtent → List ShmExtent
unfolding replace_one
replace_from n inserted [] = pending n inserted
replace_from n inserted (e ∷ es) =
    replace_one n inserted e ++ replace_from n (inserted || not (leb e.end n.start)) es

-- `replaceRangeLocked`
pub replace_range : ShmExtent → List ShmExtent → List ShmExtent
unfolding replace_from coalesce_shm
replace_range n es = coalesce_shm (replace_from n false es)

-- What one round of the loop of `removeRangeGenerationLocked` appends for the extent `e`.
remove_one : ℕ → ℕ → ℕ → ShmExtent → List ShmExtent
unfolding piece_before piece_after
remove_one start end gen e =
    if not (e.gen == gen) || (leb e.end start || leb end e.start)
    then e ∷ []
    else piece_before start e ++ piece_after end e

remove_from : ℕ → ℕ → ℕ → List ShmExtent → List ShmExtent
unfolding remove_one
remove_from start end gen [] = []
remove_from start end gen (e ∷ es) = remove_one start end gen e ++ remove_from start end gen es

-- `removeRangeGenerationLocked`
pub remove_range_generation : ℕ → ℕ → ℕ → List ShmExtent → List ShmExtent
unfolding remove_from coalesce_shm
remove_range_generation start end gen es = coalesce_shm (remove_from start end gen es)

-- The loop of `coversGenerationLocked`.
covers_from : ℕ → ShmExtent → List ShmExtent → Bool
covers_from cursor want [] = false
covers_from cursor want (e ∷ es) = elim (leb e.end cursor) [
  | true ↦ covers_from cursor want es
  | false ↦ elim (ltb cursor e.start) [
    | true ↦ false
    | false ↦ elim (e.gen == want.gen) [
      | false ↦ false
      | true ↦ elim (leb want.end e.end) [ true ↦ true | false ↦ covers_from e.end want es ]
    ]
  ]
]

-- `coversGenerationLocked`
pub covers_generation : ShmExtent → List ShmExtent → Bool
unfolding covers_from
covers_generation want es = covers_from want.start want es
