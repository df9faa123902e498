-- ===== src/Journal/Newer.antt =====
-- `hasNewerOverlap` against the history of writes.
use tssniff.Prelude.{
  ℕ, zero, suc, ◌+◌, ◌<◌, ◌≡◌, ◌⊎◌, ◌↔◌, inl, inr, Bool-cases, refl, ◌∙◌, ap, true, List, [], ◌∷◌,
  arith, length, get_or, take, drop,
}
use tssniff.Journal.{Ring, WriteRecord, no_record, is_newer_overlap, newer_from, has_newer_overlap}
use tssniff.Journal.History.{Holds}

-- A write of the list has a greater number than `seq`, begins before `end` and ends behind `start`.
abbrev pub HasNewer : ℕ → ℕ → ℕ → List WriteRecord → Type 0
HasNewer seq start end [] = ⊥
HasNewer seq start end (r ∷ rs) =
    ((seq < r.seq) × (r.start < end) × (start < r.end)) ⊎ HasNewer seq start end rs

pub drop_at {ℓ} :
    {A : Type ℓ} (d : A) (xs : List A) (i : ℕ)
    → i < length xs
    → drop i xs ≡ get_or xs i d ∷ drop (i + 1) xs
drop_at d [] i h = absurd (omega arith)
drop_at d (x ∷ xs) zero h = refl
drop_at d (x ∷ xs) (suc i) h =
    drop_at d xs i (omega arith)
    ∙ ap (λ k. get_or xs i d ∷ drop k (x ∷ xs)) (let e : suc (i + 1) ≡ suc i + 1 = omega arith in e)

module _ (w : Ring WriteRecord) (hist : List WriteRecord) (v : Holds no_record w hist)
    (seq start end : ℕ) where
  newer_from-HasNewer :
      (n i : ℕ)
      → i + n ≡ w.count
      → (newer_from w seq start end n i ≡ true) ↔ HasNewer seq start end (take n (drop i hist))
  unfolding newer_from is_newer_overlap
  newer_from-HasNewer zero i e = (λ t. cc, λ m. absurd m)
  newer_from-HasNewer (suc n) i e =
      let here = v.latest i (omega arith) in
      let split = drop_at no_record hist i (omega (arith, v.counted)) in
      let (to, from) = newer_from-HasNewer n (i + 1) (omega arith) in
      rw (split, here, newer_from)
        (
          λ t. elim (Bool-cases (is_newer_overlap seq start end (get_or hist i no_record))) [
            | inl h ↦ inl (ground arith)
            | inr h ↦ inr (to (rw h at t))
          ],
          λ m. elim m [ inl h ↦ ground (arith, h) | inr h ↦ let e = from h in ground (arith, e) ],
        )

  -- On the ring of a history, `hasNewerOverlap` holds exactly if some write among the latest
  -- that the ring holds is newer and meets the range.
  pub has_newer_overlap-HasNewer :
      (has_newer_overlap w seq start end ≡ true) ↔ HasNewer seq start end (take w.count hist)
  unfolding has_newer_overlap
  has_newer_overlap-HasNewer = newer_from-HasNewer w.count 0 (omega arith)
