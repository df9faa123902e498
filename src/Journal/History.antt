-- ===== src/Journal/History.antt =====
-- The ring holds the latest entries of its history: as many as fit, none out of place.
use native.Mathlib.Nat.{mod-eq_of_lt, mod-eq-sub-mod}
use tssniff.Prelude.{
  ℕ, zero, suc, ◌+◌, ◌-◌, ◌%◌, ◌≤◌, ◌<◌, ◌≡◌, ◌≢◌, ◌∙◌, ap, sym, List, [], ◌∷◌, arith, ltb,
  if◌then◌else◌, length, get_or, set, min, inl, inr, Bool-cases, length-set, length-replicate,
  get_or-set_self, get_or-set_ne,
}
use tssniff.Journal.{Ring, new_ring, add}

-- The index of the entry `i` places before the newest.
abbrev pub slot : ℕ → ℕ → ℕ → ℕ
slot n head i = (head + n - 1 - i) % n

pub slot_lem :
    (n head i : ℕ)
    → head < n
    → i < n
    → slot n head i ≡ (if ltb i head then head - 1 - i else head + n - 1 - i)
slot_lem n head i h k = elim (Bool-cases (ltb i head)) [
  | inl e ↦
      let below : i < head = ground arith in
      rw e (
        mod-eq-sub-mod {n = head + n - 1 - i} {m = n} (omega arith)
        ∙ mod-eq_of_lt {n = head + n - 1 - i - n} {m = n} (omega arith)
        ∙ omega arith)
  | inr e ↦
      let above : head ≤ i = ground arith in
      rw e (mod-eq_of_lt {n = head + n - 1 - i} {m = n} (omega arith))
]

next_lem : (n head : ℕ) → head < n → (head + 1) % n ≡ (if ltb (head + 1) n then head + 1 else 0)
next_lem n head h = elim (Bool-cases (ltb (head + 1) n)) [
  | inl e ↦ rw e (mod-eq_of_lt {n = head + 1} {m = n} (ground arith))
  | inr e ↦
      let full : head + 1 ≡ n = ground arith in
      rw e (
        mod-eq-sub-mod {n = head + 1} {m = n} (omega arith)
        ∙ mod-eq_of_lt {n = head + 1 - n} {m = n} (omega arith)
        ∙ omega arith)
]

-- The newest entry stands where the head was, and every older one where it was.
slot_next :
    (n head : ℕ)
    → head < n
    → (slot n ((head + 1) % n) 0 ≡ head)
      × ((i : ℕ) → suc i < n → slot n ((head + 1) % n) (suc i) ≡ slot n head i)
      × ((i : ℕ) → suc i < n → slot n head i ≢ head)
slot_next n head h = (
  ground (arith, next_lem n head h, slot_lem n ((head + 1) % n) 0),
  λ i k. ground (arith, next_lem n head h, slot_lem n ((head + 1) % n) (suc i), slot_lem n head i),
  λ i k e. ground (arith, slot_lem n head i),
)

module _ {ℓ} {A : Type ℓ} (d : A) where
  -- `hist` is all that was added, newest first.
  pub record Holds (r : Ring A) (hist : List A) : Type ℓ where
    pub placed : r.head < length r.items
    pub counted : r.count ≡ min (length hist) (length r.items)
    pub latest :
        (i : ℕ) → i < r.count → get_or r.items (slot (length r.items) r.head i) d ≡ get_or hist i d

  pub new_ring-Holds : (n : ℕ) → 0 < n → Holds (new_ring n d) []
  unfolding new_ring
  new_ring-Holds n h = record {
    placed = omega (arith, length-replicate n d);
    counted = omega arith;
    latest = λ i k. absurd (omega arith);
  }

  add_latest :
      (r : Ring A) (hist : List A) (a : A) (i : ℕ)
      → Holds r hist
      → i < (add r a).count
      → get_or (set r.items r.head a) (slot (length r.items) ((r.head + 1) % length r.items) i) d
        ≡ get_or (a ∷ hist) i d
  unfolding add
  add_latest r hist a zero v k =
      ap (λ j. get_or (set r.items r.head a) j d) (slot_next (length r.items) r.head v.placed).0
      ∙ get_or-set_self r.items r.head a d v.placed
  add_latest r hist a (suc i) v k =
      let next = slot_next (length r.items) r.head v.placed in
      let room : suc i < length r.items = ground (arith, v.counted) in
      ap (λ j. get_or (set r.items r.head a) j d) (next.1 i room)
      ∙ get_or-set_ne r.items a d (λ e. next.2 i room (sym e))
      ∙ v.latest i (ground arith)

  -- A ring that holds the latest entries of a history, as many as fit, holds those of the
  -- longer history after an entry is added.
  pub add-Holds : (r : Ring A) (hist : List A) (a : A) → Holds r hist → Holds (add r a) (a ∷ hist)
  unfolding add
  add-Holds r hist a v =
      let n = length-set r.items r.head a in
      record {
        placed = omega (arith, next_lem (length r.items) r.head v.placed, v.placed);
        counted = ground (arith, v.counted, n);
        latest = λ i k. rw n (add_latest r hist a i v k);
      }
