-- ===== src/Ntfs/Fixup/Restore.antt =====
-- Where the sectors end, and what putting two bytes back does to a record.
use native.Mathlib.Nat.{mul-le-mul_left, mul-suc, mul-one}
use tssniff.Prelude.{
  ℕ, ◌+◌, ◌*◌, ◌≤◌, ◌<◌, ◌≡◌, ◌∙◌, List, arith, ◌==◌, if◌then◌else◌, length, get_or, set,
  length-set, get_or-set_self, get_or-set_ne, inl, inr, Bool-cases,
}
use tssniff.Ntfs.Fixup.{trailer, restore}

-- Trailers of later sectors stand behind, and all of them within the sectors.
pub trailer_next : (stride i j : ℕ) → 2 ≤ stride → i < j → trailer stride i + 2 ≤ trailer stride j
unfolding trailer
trailer_next stride i j h k = omega (
  arith,
  mul-le-mul_left stride (let l : i + 2 ≤ j + 1 = omega arith in l),
  mul-suc stride (i + 1),
  mul-le-mul_left stride (let l : 1 ≤ i + 1 = omega arith in l),
  mul-one stride,
)

pub trailer_within : (stride i n : ℕ) → 2 ≤ stride → i < n → trailer stride i + 2 ≤ stride * n
unfolding trailer
trailer_within stride i n h k = omega (
  arith,
  mul-le-mul_left stride (let l : i + 1 ≤ n = omega arith in l),
  mul-le-mul_left stride (let l : 1 ≤ i + 1 = omega arith in l),
  mul-one stride,
)

pub trailer_first : (stride i : ℕ) → stride ≤ trailer stride i + 2
unfolding trailer
trailer_first stride i =
    omega (arith, mul-le-mul_left stride (let l : 1 ≤ i + 1 = omega arith in l), mul-one stride)

pub length-restore : (rec : List ℕ) (t repl : ℕ) → length (restore rec t repl) ≡ length rec
unfolding restore
length-restore rec t repl =
    length-set (set rec t (get_or rec repl 0)) (t + 1) _ ∙ length-set rec t (get_or rec repl 0)

get_or-set :
    (xs : List ℕ) (i v x : ℕ)
    → i < length xs
    → get_or (set xs i v) x 0 ≡ (if x == i then v else get_or xs x 0)
get_or-set xs i v x h = elim (Bool-cases (x == i)) [
  | inl e ↦ let same : x ≡ i = ground arith in rw (e, same) (get_or-set_self xs i v 0 h)
  | inr e ↦ rw e (get_or-set_ne xs v 0 (λ d. absurd (ground arith)))
]

pub get_or-restore :
    (rec : List ℕ) (t repl x : ℕ)
    → t + 1 < length rec
    → repl + 2 ≤ t
    → get_or (restore rec t repl) x 0 ≡ (
        if x == t
        then get_or rec repl 0
        else if x == t + 1
        then get_or rec (repl + 1) 0
        else get_or rec x 0)
unfolding restore
get_or-restore rec t repl x h k =
    let rec' = set rec t (get_or rec repl 0) in
    let long : length rec' ≡ length rec = length-set rec t (get_or rec repl 0) in
    let second = get_or-set rec' (t + 1) (get_or rec' (repl + 1) 0) x (omega (arith, long)) in
    let first = get_or-set rec t (get_or rec repl 0) x (omega arith) in
    let moved = get_or-set rec t (get_or rec repl 0) (repl + 1) (omega arith) in
    ground (arith, second, first, moved)
