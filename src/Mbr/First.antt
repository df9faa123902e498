-- ===== src/Mbr/First.antt =====
-- Which entry of the table is found.
use tssniff.Prelude.{
  ℕ, zero, suc, ◌+◌, ◌*◌, ◌≤◌, ◌<◌, ◌≡◌, ◌≢◌, ◌⊎◌, refl, subst, List, Option, none, some, arith,
  get_or, ◌==◌, inl, inr, Option-cases, Bool-cases,
}
use tssniff.Shm.Io.{IoError}
use tssniff.Mbr.{
  MbrResult, found, read_failed, invalid_signature, no_ntfs_partition, Partition, le_u16, le_u32,
  entry, find_entry, find_mbr_partition,
}

-- What the result of the search through the entries from `i` up to `stop` says of them.
abbrev pub IsFirst : List ℕ → ℕ → ℕ → MbrResult → Type 0
IsFirst mbr i stop (found p) =
    (k : ℕ) × (i ≤ k)
    × (k < stop)
    × (entry mbr k ≡ some p)
    × ((j : ℕ) → i ≤ j → j < k → entry mbr j ≡ none)
IsFirst mbr i stop (read_failed e) = ⊥
IsFirst mbr i stop invalid_signature = ⊥
IsFirst mbr i stop no_ntfs_partition = (j : ℕ) → i ≤ j → j < stop → entry mbr j ≡ none

IsFirst-next :
    (mbr : List ℕ) (i stop : ℕ) (r : MbrResult)
    → entry mbr i ≡ none
    → IsFirst mbr (i + 1) stop r
    → IsFirst mbr i stop r
IsFirst-next mbr i stop (found p) e (k, a, b, c, d) =
    (k, omega arith, b, c, λ j l m. before mbr i k e d j l m)
  where
    before :
        (mbr : List ℕ) (i k : ℕ)
        → entry mbr i ≡ none
        → ((j : ℕ) → i + 1 ≤ j → j < k → entry mbr j ≡ none)
        → (j : ℕ) → i ≤ j
        → j < k
        → entry mbr j ≡ none
    before mbr i k e d j l m = elim (Bool-cases (i == j)) [
      | inl t ↦ let same : j ≡ i = ground arith in rw same e
      | inr t ↦ d j (ground arith) m
    ]
IsFirst-next mbr i stop (read_failed x) e f = f
IsFirst-next mbr i stop invalid_signature e f = f
IsFirst-next mbr i stop no_ntfs_partition e f = λ j l m. elim (Bool-cases (i == j)) [
  | inl t ↦ let same : j ≡ i = ground arith in rw same e
  | inr t ↦ f j (ground arith) m
]

find_entry-IsFirst : (n i : ℕ) (mbr : List ℕ) → IsFirst mbr i (i + n) (find_entry n i mbr)
unfolding find_entry
find_entry-IsFirst zero i mbr = λ j l m. absurd (omega arith)
find_entry-IsFirst (suc n) i mbr = elim (Option-cases (entry mbr i)) [
  | inl e ↦
      rw (e, find_entry)
        (IsFirst-next mbr i (i + suc n) _ e (
          let same : i + 1 + n ≡ i + suc n = omega arith in
          subst (λ t. IsFirst mbr (i + 1) t (find_entry n (i + 1) mbr)) same
            (find_entry-IsFirst n (i + 1) mbr)))
  | inr (p, e) ↦ rw (e, find_entry) (i, omega arith, omega arith, e, λ j l m. absurd (omega arith))
]

-- What the search finds, in terms of the loop's own body.
abbrev pub Search : List ℕ → Option IoError → MbrResult → Type 0
Search mbr (some e) r = r ≡ read_failed e
Search mbr none r =
    ((le_u16 mbr 510 ≢ 0xAA55) × (r ≡ invalid_signature))
    ⊎ ((le_u16 mbr 510 ≡ 0xAA55) × IsFirst mbr 0 4 r)

pub find_mbr_partition-Search :
    (mbr : List ℕ) (error : Option IoError) → Search mbr error (find_mbr_partition mbr error)
unfolding find_mbr_partition
find_mbr_partition-Search mbr (some e) = refl
find_mbr_partition-Search mbr none = elim (Bool-cases (le_u16 mbr 510 == 0xAA55)) [
  | inl e ↦ rw e (inr (ground arith, find_entry-IsFirst 4 0 mbr))
  | inr e ↦ rw e (inl (λ h. absurd (ground arith), refl))
]

-- The number in the four bytes from `at` on, the lowest first.
abbrev pub number : List ℕ → ℕ → ℕ
number mbr at =
    get_or mbr at 0
    + 256 * get_or mbr (at + 1) 0
    + 65536 * get_or mbr (at + 2) 0
    + 16777216 * get_or mbr (at + 3) 0

-- Entry `k`, 16 bytes from 446 + 16 k on, is of type 7, and neither the number of its first block
-- nor that of its blocks is 0.
abbrev pub IsUsable : List ℕ → ℕ → Type 0
IsUsable mbr k =
    (get_or mbr (446 + 16 * k + 4) 0 ≡ 7)
    × (0 < number mbr (446 + 16 * k + 8))
    × (0 < number mbr (446 + 16 * k + 12))

-- The partition of a usable entry, in bytes.
abbrev pub Names : List ℕ → ℕ → Partition → Type 0
Names mbr k p =
    IsUsable mbr k
    × (p.offset ≡ 512 * number mbr (446 + 16 * k + 8))
    × (p.size ≡ 512 * number mbr (446 + 16 * k + 12))
    × (p.kind ≡ 7)

-- What the result says of the four entries.
abbrev pub IsFirstUsable : List ℕ → MbrResult → Type 0
IsFirstUsable mbr (found p) =
    (k : ℕ) × (k < 4) × Names mbr k p × ((j : ℕ) → j < k → ¬ (IsUsable mbr j))
IsFirstUsable mbr (read_failed e) = ⊥
IsFirstUsable mbr invalid_signature = ⊥
IsFirstUsable mbr no_ntfs_partition = (j : ℕ) → j < 4 → ¬ (IsUsable mbr j)

le_u32-number : (mbr : List ℕ) (at : ℕ) → le_u32 mbr at ≡ number mbr at
unfolding le_u32 le_u16
le_u32-number mbr at = let e : at + 2 + 1 ≡ at + 3 = omega arith in rw e (omega arith)

entry-Names : (mbr : List ℕ) (k : ℕ) (p : Partition) → entry mbr k ≡ some p → Names mbr k p
unfolding entry
entry-Names mbr k p e =
    let place : 446 + k * 16 ≡ 446 + 16 * k = omega arith in
    let e' = rw place at e in
    let a = le_u32-number mbr (446 + 16 * k + 8) in
    let b = le_u32-number mbr (446 + 16 * k + 12) in
    ((ground arith, ground arith, ground arith), ground arith, ground arith, ground arith)

entry-none : (mbr : List ℕ) (k : ℕ) → entry mbr k ≡ none → ¬ (IsUsable mbr k)
unfolding entry
entry-none mbr k e (t, l, n) =
    let place : 446 + k * 16 ≡ 446 + 16 * k = omega arith in
    let e' = rw place at e in
    let a = le_u32-number mbr (446 + 16 * k + 8) in
    let b = le_u32-number mbr (446 + 16 * k + 12) in ground arith

IsFirst-IsFirstUsable : (mbr : List ℕ) (r : MbrResult) → IsFirst mbr 0 4 r → IsFirstUsable mbr r
IsFirst-IsFirstUsable mbr (found p) (k, a, b, c, d) =
    (k, b, entry-Names mbr k p c, λ j l. entry-none mbr j (d j (omega arith) l))
IsFirst-IsFirstUsable mbr (read_failed e) f = f
IsFirst-IsFirstUsable mbr invalid_signature f = f
IsFirst-IsFirstUsable mbr no_ntfs_partition f = λ j l. entry-none mbr j (f j (omega arith) l)

abbrev pub Outcome : List ℕ → Option IoError → MbrResult → Type 0
Outcome mbr (some e) r = r ≡ read_failed e
Outcome mbr none r =
    ((get_or mbr 510 0 + 256 * get_or mbr 511 0 ≢ 0xAA55) × (r ≡ invalid_signature))
    ⊎ ((get_or mbr 510 0 + 256 * get_or mbr 511 0 ≡ 0xAA55) × IsFirstUsable mbr r)

Search-Outcome :
    (mbr : List ℕ) (error : Option IoError) (r : MbrResult)
    → Search mbr error r
    → Outcome mbr error r
unfolding le_u16
Search-Outcome mbr (some e) r s = s
Search-Outcome mbr none r (inl (a, b)) = inl (a, b)
Search-Outcome mbr none r (inr (a, f)) = inr (a, IsFirst-IsFirstUsable mbr r f)

-- Every outcome of `findMBRPartition`: the error of the read; else an invalid signature exactly
-- if the bytes 510 and 511 are not 0xAA55; else the partition of the first of the four entries
-- of 16 bytes from 446 on whose byte 4 is 7 and whose little-endian numbers at 8 and 12 are not
-- 0, with 512 times these numbers as offset and size; and none only if there is no such entry.
pub find_mbr_partition-Outcome :
    (mbr : List ℕ) (error : Option IoError) → Outcome mbr error (find_mbr_partition mbr error)
find_mbr_partition-Outcome mbr error =
    Search-Outcome mbr error _ (find_mbr_partition-Search mbr error)
