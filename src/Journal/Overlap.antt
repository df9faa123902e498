-- ===== src/Journal/Overlap.antt =====
-- `ForOverlap` against the history of captures.
use native.Mathlib.Nat.{mod-eq_of_lt, mod-eq-sub-mod}
use tssniff.Prelude.{
  ℕ, zero, suc, ◌+◌, ◌-◌, ◌%◌, ◌≤◌, ◌<◌, ◌≡◌, refl, ◌∙◌, ap, List, [], ◌∷◌, arith, ltb, leb,
  if◌then◌else◌, length, get_or, inl, inr, Bool-cases,
}
use tssniff.Events.{CaptureRange}
use tssniff.Journal.{Ring, no_capture, overlaps, overlap_from, for_overlap}
use tssniff.Journal.History.{Holds, slot, slot_lem}

-- The latest `n` captures that meet `[start, end)`, oldest first.
abbrev pub meeting : ℕ → ℕ → List CaptureRange → ℕ → List CaptureRange
meeting start end hist zero = []
meeting start end hist (suc n) =
    let c = get_or hist n no_capture in
    let rest = meeting start end hist n in if overlaps start end c then c ∷ rest else rest

-- The index of the `i`-th oldest entry is that of the newest but `count - 1 - i`.
oldest_slot :
    (n head count i : ℕ)
    → head < n
    → count ≤ n
    → i < count
    → ((head + n - count) % n + i) % n ≡ slot n head (count - 1 - i)
oldest_slot n head count i h c k = elim (Bool-cases (leb count head)) [
  | inl e ↦
      let e' : count ≤ head = ground arith in
      let first : (head + n - count) % n ≡ head - count =
        mod-eq-sub-mod {n = head + n - count} {m = n} (omega arith)
        ∙ mod-eq_of_lt {n = head + n - count - n} {m = n} (omega arith)
        ∙ omega arith in
      rw first (
        mod-eq_of_lt {n = head - count + i} {m = n} (omega arith)
        ∙ ground (arith, slot_lem n head (count - 1 - i) h))
  | inr e ↦
      let e' : head < count = ground arith in
      let first : (head + n - count) % n ≡ head + n - count =
        mod-eq_of_lt {n = head + n - count} {m = n} (omega arith) in
      rw first (elim (Bool-cases (ltb (head + n - count + i) n)) [
        | inl f ↦
            mod-eq_of_lt {n = head + n - count + i} {m = n} (ground arith)
            ∙ ground (arith, slot_lem n head (count - 1 - i) h)
        | inr f ↦
            let f' : n ≤ head + n - count + i = ground arith in
            mod-eq-sub-mod {n = head + n - count + i} {m = n} f'
            ∙ mod-eq_of_lt {n = head + n - count + i - n} {m = n} (omega arith)
            ∙ ground (arith, slot_lem n head (count - 1 - i) h)
      ])
]

module _ (j : Ring CaptureRange) (hist : List CaptureRange) (v : Holds no_capture j hist)
    (start end : ℕ) where
  abbrev first : ℕ
  first = (j.head + length j.items - j.count) % length j.items

  overlap_from-meeting :
      (n i : ℕ) → i + n ≡ j.count → overlap_from j start end first n i ≡ meeting start end hist n
  unfolding overlap_from
  overlap_from-meeting zero i e = refl
  overlap_from-meeting (suc n) i e =
      let index =
        oldest_slot (length j.items) j.head j.count i v.placed (omega (arith, v.counted))
          (omega arith) in
      let back : j.count - 1 - i ≡ n = omega arith in
      let here : get_or j.items ((first + i) % length j.items) no_capture
          ≡ get_or hist n no_capture =
        ap (λ k. get_or j.items k no_capture) (index ∙ ap (slot (length j.items) j.head) back)
        ∙ v.latest n (omega arith) in
      rw (here, overlap_from-meeting n (i + 1) (omega arith)) refl

  -- On the ring of a history, `ForOverlap` calls its function with the captures that the ring
  -- still holds and that meet the range, each once, oldest first; with none if the range is
  -- empty.
  pub for_overlap-meeting :
      for_overlap j start end ≡ (if leb end start then [] else meeting start end hist j.count)
  unfolding for_overlap
  for_overlap-meeting = ground (arith, overlap_from-meeting j.count 0)
