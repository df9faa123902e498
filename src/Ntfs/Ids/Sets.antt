-- ===== src/Ntfs/Ids/Sets.antt =====
-- The sets of record numbers: a concatenation, an interval, and the records of some bytes.
use native.Mathlib.Nat.{
  div-lt_iff_lt-mul, le-div_iff_mul-le, div-eq_of_lt-le, add-mul, div-mul-le_self,
}
use tssniff.Prelude.{
  ℕ, zero, suc, ◌+◌, ◌-◌, ◌*◌, ◌/◌, ◌^◌, ◌≤◌, ◌<◌, ◌≡◌, ◌↔◌, refl, ◌∙◌, true, ◌||◌, ◌&&◌, List, [],
  ◌∷◌, ◌++◌, arith, ltb, leb, sub_u64, inl, inr, Bool-cases,
}
use tssniff.Ntfs.Ids.{numbers, ids_between, contains}

pub contains-append :
    (xs ys : List ℕ) (k : ℕ) → contains (xs ++ ys) k ≡ (contains xs k || contains ys k)
unfolding contains
contains-append [] ys k = refl
contains-append (x ∷ xs) ys k = ground (arith, contains-append xs ys k)

pub contains-numbers :
    (n first k : ℕ) → contains (numbers n first) k ≡ (leb first k && ltb k (first + n))
unfolding contains numbers
contains-numbers zero first k = ground arith
contains-numbers (suc n) first k = ground (arith, contains-numbers n (first + 1) k)

-- Some byte of `[a, b)` lies in the record `k`.
abbrev pub Meets : ℕ → ℕ → ℕ → ℕ → Type 0
Meets size a b k = (l : ℕ) × (a ≤ l) × (l < b) × (l / size ≡ k)

div_mono : (size x y : ℕ) → 0 < size → x ≤ y → x / size ≤ y / size
div_mono size x y p h = (le-div_iff_mul-le p).1 (omega (arith, div-mul-le_self x size))

-- The records from that of `a` up to that of the last byte before `b`.
between_lem :
    (size a b k : ℕ)
    → 0 < size
    → a < b
    → b < 2 ^ 64
    → contains (ids_between size a b) k ≡ (leb (a / size) k && leb k ((b - 1) / size))
unfolding ids_between
between_lem size a b k p h w =
    let last : sub_u64 b 1 ≡ b - 1 = omega arith in
    rw last (
      ground (
        arith,
        contains-numbers ((b - 1) / size + 1 - a / size) (a / size) k,
        div_mono size a (b - 1) p (omega arith),
      ))

pub contains-ids_between :
    (size a b k : ℕ)
    → 0 < size
    → a < b
    → b < 2 ^ 64
    → (contains (ids_between size a b) k ≡ true) ↔ Meets size a b k
contains-ids_between size a b k p h w = (
  λ t.
      let from : a / size ≤ k = ground (arith, between_lem size a b k p h w) in
      let upto : k ≤ (b - 1) / size = ground (arith, between_lem size a b k p h w) in
      let begins : k * size ≤ b - 1 = (le-div_iff_mul-le p).0 upto in
      let ends : a < (k + 1) * size = (div-lt_iff_lt-mul p).0 (omega arith) in
      let next = add-mul k 1 size in
      elim (Bool-cases (leb a (k * size))) [
        | inl e ↦ (
          k * size,
          ground arith,
          omega arith,
          div-eq_of_lt-le size (omega arith) (omega (arith, next)),
        )
        | inr e ↦ (a, omega arith, h, div-eq_of_lt-le size (ground arith) ends)
      ],
  λ m.
      let (l, x, y, z) = m in
      let low = div_mono size a l p x in
      let high = div_mono size l (b - 1) p (omega arith) in
      between_lem size a b k p h w ∙ ground arith,
)
