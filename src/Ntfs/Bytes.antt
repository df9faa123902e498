-- ===== src/Ntfs/Bytes.antt =====
-- Numbers in bytes, the least significant first.
use native.Mathlib.Nat.{pow-suc}
use tssniff.Prelude.{
  ℕ, zero, suc, ◌+◌, ◌*◌, ◌/◌, ◌%◌, ◌^◌, ◌<◌, ◌≡◌, refl, ap, Bool, true, false, ◌&&◌, List, [], ◌∷◌,
  ◌++◌, arith, ◌==◌, length, drop,
}

-- The number in the first `n` bytes; bytes that are not there count as zero.
unfoldable pub le : ℕ → List ℕ → ℕ
le zero bs = 0
le (suc n) [] = 0
le (suc n) (b ∷ bs) = b + 256 * le n bs

-- The number in the `n` bytes from `off` on.
unfoldable pub le_at : ℕ → List ℕ → ℕ → ℕ
unfolding le
le_at n bs off = le n (drop off bs)

-- Whether the list begins with the bytes of the first one.
unfoldable pub begins_with : List ℕ → List ℕ → Bool
begins_with [] bs = true
begins_with (p ∷ ps) [] = false
begins_with (p ∷ ps) (b ∷ bs) = p == b && begins_with ps bs

abbrev pub AreBytes : List ℕ → Type 0
AreBytes [] = Unit {0}
AreBytes (b ∷ bs) = (b < 256) × AreBytes bs

pub le-lt : (n : ℕ) (bs : List ℕ) → AreBytes bs → le n bs < 256 ^ n
unfolding le
le-lt zero bs h = omega arith
le-lt (suc n) [] h = omega (arith, pow-suc 256 n, le-lt n [] tt)
le-lt (suc n) (b ∷ bs) (h, hs) = omega (arith, pow-suc 256 n, le-lt n bs hs)

pub AreBytes-drop : (n : ℕ) (bs : List ℕ) → AreBytes bs → AreBytes (drop n bs)
AreBytes-drop zero bs h = h
AreBytes-drop (suc n) [] h = h
AreBytes-drop (suc n) (b ∷ bs) (h, hs) = AreBytes-drop n bs hs

-- The `n` bytes of a number.
pub to_le : ℕ → ℕ → List ℕ
to_le zero v = []
to_le (suc n) v = (v % 256) ∷ to_le n (v / 256)

pub length-to_le : (n v : ℕ) → length (to_le n v) ≡ n
unfolding to_le
length-to_le zero v = refl
length-to_le (suc n) v = ap suc (length-to_le n (v / 256))

pub le-to_le : (n v : ℕ) (rest : List ℕ) → v < 256 ^ n → le n (to_le n v ++ rest) ≡ v
unfolding le to_le
le-to_le zero v rest h = omega arith
le-to_le (suc n) v rest h =
    omega (arith, pow-suc 256 n, le-to_le n (v / 256) rest (omega (arith, pow-suc 256 n)))

pub drop-to_le : (n v : ℕ) (rest : List ℕ) → drop n (to_le n v ++ rest) ≡ rest
unfolding to_le
drop-to_le zero v rest = refl
drop-to_le (suc n) v rest = drop-to_le n (v / 256) rest
