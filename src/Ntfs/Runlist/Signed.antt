-- ===== src/Ntfs/Runlist/Signed.antt =====
-- What the sign of an offset means.
use tssniff.Prelude.{
  ℕ, zero, suc, ◌+◌, ◌-◌, ◌*◌, ◌^◌, ◌≤◌, ◌<◌, ◌≡◌, ◌≢◌, refl, subst, Bool, true, ◌&&◌, arith, ltb,
  leb, ◌==◌, if◌then◌else◌, add_u64, inl, inr, Bool-cases,
}
use tssniff.Ntfs.Runlist.{sign_extend}

-- The cluster that a signed offset of `size` bytes, given by its bit pattern, leads to.
abbrev pub moved : ℕ → ℕ → ℕ → ℕ
moved size offset lcn =
    if ltb (2 * offset) (256 ^ size) then lcn + offset else lcn + offset - 256 ^ size

-- The powers that the code and the sum above use, for a size that the header can have.
record HasPowers (size : ℕ) : Type 0 where
  whole : 2 ^ (8 * size) ≡ 256 ^ size
  half : 256 ^ size ≡ 2 * 2 ^ (8 * size - 1)
  least : size ≢ 8 → 256 ^ size ≤ 2 ^ 56
  most : size ≡ 8 → 256 ^ size ≡ 2 ^ 64

abbrev good_powers : ℕ → Bool
good_powers n =
    let size = n + 1 in
    2 ^ (8 * size) == 256 ^ size
    && (256 ^ size == 2 * 2 ^ (8 * size - 1)
        && (if size == 8 then 256 ^ size == 2 ^ 64 else leb (256 ^ size) (2 ^ 56)))

abbrev all_powers : ℕ → Bool
all_powers zero = true
all_powers (suc n) = good_powers n && all_powers n

and_left : (a b : Bool) → (a && b) ≡ true → a ≡ true
and_left a b h = ground arith

and_right : (a b : Bool) → (a && b) ≡ true → b ≡ true
and_right a b h = ground arith

good_powers-all : (size m : ℕ) → all_powers size ≡ true → m < size → good_powers m ≡ true
good_powers-all zero m t h = absurd (omega arith)
good_powers-all (suc n) m t h = elim (Bool-cases (m == n)) [
  | inl e ↦
      let same : n ≡ m = ground arith in
      subst (λ k. good_powers k ≡ true) same (and_left (good_powers n) (all_powers n) t)
  | inr e ↦ good_powers-all n m (and_right (good_powers n) (all_powers n) t) (ground arith)
]

from_table : (n : ℕ) → good_powers n ≡ true → HasPowers (n + 1)
from_table n t = record {
  whole = ground (arith, t);
  half = ground (arith, t);
  least = λ h. ground (arith, t, h);
  most = λ h. ground (arith, t, h);
}

size-HasPowers : (size : ℕ) → 0 < size → size ≤ 8 → HasPowers size
size-HasPowers size a b =
    let back : size - 1 + 1 ≡ size = omega arith in
    subst HasPowers back (from_table (size - 1) (good_powers-all 8 (size - 1) refl (omega arith)))

-- The sum of the code is that cluster.
pub moved_lem :
    (size offset lcn : ℕ)
    → 0 < size
    → size ≤ 8
    → offset < 256 ^ size
    → (256 ^ size ≤ 2 * offset → 256 ^ size ≤ lcn + offset)
    → moved size offset lcn < 2 ^ 63
    → add_u64 lcn (sign_extend size offset) ≡ moved size offset lcn
unfolding sign_extend
moved_lem size offset lcn a b c d e =
    let powers = size-HasPowers size a b in
    ground (arith, powers.whole, powers.half, powers.least, powers.most)
