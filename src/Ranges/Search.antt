-- ===== src/Ranges/Search.antt =====
-- `rangesOverlapSnapshot`: the binary search decides whether a window meets the set of bytes.
use tssniff.Prelude.{
  ℕ, zero, suc, ◌+◌, ◌/◌, ◌≤◌, ◌<◌, ◌≡◌, ◌↔◌, Bool, true, false, List, [], ◌∷◌, arith, ltb, length,
  get_or, inl, inr, Bool-cases,
}
use tssniff.Ranges.{ByteRange, max_u64, search_from, sort_search, no_range, ranges_overlap_snapshot}
use tssniff.Ranges.Points.{holds, covers, IsSeparated}

-- `f` does not go back from true to false below `n`.
abbrev IsMonotone : ℕ → (ℕ → Bool) → Type 0
IsMonotone n f = (i j : ℕ) → i ≤ j → j < n → f i ≡ true → f j ≡ true

-- `k` is the first index of `[0, n)` at which `f` holds, or `n`.
abbrev IsFirst : ℕ → (ℕ → Bool) → ℕ → Type 0
IsFirst n f k = (k ≤ n) × ((i : ℕ) → i < k → f i ≡ false) × (k < n → f k ≡ true)

false_before :
    {n k l : ℕ} {f : ℕ → Bool} → IsMonotone n f → k ≤ l → l < n → f l ≡ false → f k ≡ false
false_before {k = k} {l = l} {f = f} m h b e = elim (Bool-cases (f k)) [
  | inl t ↦ cc (m k l h b t)
  | inr t ↦ t
]

search_from-IsFirst :
    (fuel n : ℕ) (f : ℕ → Bool) (i j : ℕ)
    → IsMonotone n f
    → i ≤ j
    → j ≤ n
    → j < i + suc fuel
    → ((k : ℕ) → k < i → f k ≡ false)
    → (j < n → f j ≡ true)
    → IsFirst n f (search_from fuel f i j)
unfolding search_from
search_from-IsFirst zero n f i j m p q w lo hi =
    (omega arith, lo, λ h. let e : j ≡ i = omega arith in rw e at (hi (omega arith)))
search_from-IsFirst (suc fuel) n f i j m p q w lo hi = elim (Bool-cases (ltb i j)) [
  | inr e ↦
      rw (e, search_from)
        (omega arith, lo, λ h. let e' : j ≡ i = ground arith in rw e' at (hi (omega arith)))
  | inl e ↦
      let lt : i < j = ground arith in
      elim (Bool-cases (f ((i + j) / 2))) [
        | inr g ↦
            rw (e, g, search_from)
              (search_from-IsFirst fuel n f ((i + j) / 2 + 1) j m (omega arith) q (omega arith)
                (λ k h. false_before m (omega arith) (omega arith) g) hi)
        | inl g ↦
            rw (e, g, search_from)
              (search_from-IsFirst fuel n f i ((i + j) / 2) m (omega arith) (omega arith)
                (omega arith) lo (λ _. g))
      ]
]

sort_search-IsFirst : (n : ℕ) (f : ℕ → Bool) → IsMonotone n f → IsFirst n f (sort_search n f)
unfolding sort_search
sort_search-IsFirst n f m =
    search_from-IsFirst n n f 0 n m (omega arith) (omega arith) (omega arith)
      (λ k h. absurd (omega arith)) (λ h. absurd (omega arith))

abbrev nth : List ByteRange → ℕ → ByteRange
nth rs i = get_or rs i no_range

nth_nonempty :
    (lo : ℕ) (rs : List ByteRange) (i : ℕ)
    → IsSeparated lo rs
    → i < length rs
    → (lo ≤ (nth rs i).start) × ((nth rs i).start < (nth rs i).end)
nth_nonempty lo [] i s h = absurd (omega arith)
nth_nonempty lo (r ∷ rs) zero (a, b, s) h = (a, b)
nth_nonempty lo (r ∷ rs) (suc i) (a, b, s) h =
    let rest = nth_nonempty (suc r.end) rs i s (omega arith) in (omega arith, rest.1)

nth_ascending :
    (lo : ℕ) (rs : List ByteRange) (i j : ℕ)
    → IsSeparated lo rs
    → i ≤ j
    → j < length rs
    → ((nth rs i).start ≤ (nth rs j).start) × ((nth rs i).end ≤ (nth rs j).end)
nth_ascending lo [] i j s p h = absurd (omega arith)
nth_ascending lo (r ∷ rs) zero zero s p h = omega arith
nth_ascending lo (r ∷ rs) zero (suc j) (a, b, s) p h =
    let rest = nth_nonempty (suc r.end) rs j s (omega arith) in omega arith
nth_ascending lo (r ∷ rs) (suc i) zero s p h = absurd (omega arith)
nth_ascending lo (r ∷ rs) (suc i) (suc j) (a, b, s) p h =
    nth_ascending (suc r.end) rs i j s (omega arith) (omega arith)

covers_of_nth :
    (x : ℕ) (rs : List ByteRange) (i : ℕ)
    → i < length rs
    → holds x (nth rs i) ≡ true
    → covers x rs ≡ true
covers_of_nth x [] i h e = absurd (omega arith)
covers_of_nth x (r ∷ rs) zero h e = ground arith
covers_of_nth x (r ∷ rs) (suc i) h e = ground (arith, covers_of_nth x rs i)

nth_of_covers :
    (x : ℕ) (rs : List ByteRange)
    → covers x rs ≡ true
    → (i : ℕ) × (i < length rs) × (holds x (nth rs i) ≡ true)
nth_of_covers x [] e = cc
nth_of_covers x (r ∷ rs) e = elim (Bool-cases (holds x r)) [
  | inl here ↦ (0, omega arith, here)
  | inr other ↦ let (i, h, t) = nth_of_covers x rs (ground arith) in (suc i, omega arith, t)
]

-- The window `[start, end)` has a byte of the set.
abbrev pub Meets : List ByteRange → ℕ → ℕ → Type 0
Meets rs start end = (x : ℕ) × (start ≤ x) × (x < end) × (covers x rs ≡ true)

abbrev ends_after : List ByteRange → ℕ → ℕ → Bool
ends_after rs start i = ltb start (nth rs i).end

ends_after-IsMonotone :
    (lo : ℕ) (rs : List ByteRange) (start : ℕ)
    → IsSeparated lo rs
    → IsMonotone (length rs) (ends_after rs start)
ends_after-IsMonotone lo rs start s i j p h e = ground (arith, nth_ascending lo rs i j s)

module _ (lo : ℕ) (rs : List ByteRange) (start end : ℕ) (s : IsSeparated lo rs) where
  -- The index that the binary search returns.
  abbrev found : ℕ
  found = sort_search (length rs) (ends_after rs start)

  found-IsFirst : IsFirst (length rs) (ends_after rs start) found
  found-IsFirst =
      sort_search-IsFirst (length rs) (ends_after rs start) (ends_after-IsMonotone lo rs start s)

  found-le : (i : ℕ) → start < (nth rs i).end → found ≤ i
  found-le i h = ground (arith, found-IsFirst.1 i)

  ranges_overlap_snapshot-Meets : ranges_overlap_snapshot rs start end ≡ true → Meets rs start end
  unfolding ranges_overlap_snapshot max_u64
  ranges_overlap_snapshot-Meets e =
      let inside : (start < end) × (found < length rs) × ((nth rs found).start < end) =
        ground arith in
      let after : start < (nth rs found).end = ground (arith, found-IsFirst.2 inside.1) in
      let full = nth_nonempty lo rs found s inside.1 in
      let x : ℕ = max_u64 start (nth rs found).start in
      (x, ground arith, ground arith, covers_of_nth x rs found inside.1 (ground arith))

  Meets-ranges_overlap_snapshot : Meets rs start end → ranges_overlap_snapshot rs start end ≡ true
  unfolding ranges_overlap_snapshot
  Meets-ranges_overlap_snapshot (x, p, q, c) =
      let (i, h, t) = nth_of_covers x rs c in
      let first : found ≤ i = found-le i (ground arith) in
      let up = nth_ascending lo rs found i s first h in ground arith

  -- On a separated list, the binary search of `rangesOverlapSnapshot` holds exactly if the list
  -- and the window have a byte in common.
  pub ranges_overlap_snapshot_iff :
      (ranges_overlap_snapshot rs start end ≡ true) ↔ Meets rs start end
  ranges_overlap_snapshot_iff = (ranges_overlap_snapshot-Meets, Meets-ranges_overlap_snapshot)
