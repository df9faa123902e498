-- ===== src/Mbr/Bounds.antt =====
-- The partition that is found is one that `int64` offsets can name.
use tssniff.Prelude.{
  ℕ, zero, suc, ◌+◌, ◌*◌, ◌^◌, ◌≤◌, ◌<◌, ◌≡◌, inl, inr, subst, List, [], ◌∷◌, Option, none, some,
  arith, get_or,
}
use tssniff.Shm.Io.{IoError}
use tssniff.Mbr.{
  mbr_sector_size, Partition, MbrResult, found, le_u16, le_u32, entry, find_mbr_partition,
}
use tssniff.Mbr.First.{IsFirst, Search, find_mbr_partition-Search}

-- Each number of the list is a byte.
abbrev pub AreBytes : List ℕ → Type 0
AreBytes [] = Unit {0}
AreBytes (b ∷ bs) = (b < 256) × AreBytes bs

get_or_byte : (bs : List ℕ) (i : ℕ) → AreBytes bs → get_or bs i 0 < 256
get_or_byte [] i h = omega arith
get_or_byte (b ∷ bs) zero (h, hs) = h
get_or_byte (b ∷ bs) (suc i) (h, hs) = get_or_byte bs i hs

le_u32_lt : (mbr : List ℕ) (off : ℕ) → AreBytes mbr → le_u32 mbr off < 2 ^ 32
unfolding le_u32 le_u16
le_u32_lt mbr off h = omega (
  arith,
  get_or_byte mbr off h,
  get_or_byte mbr (off + 1) h,
  get_or_byte mbr (off + 2) h,
  get_or_byte mbr (off + 2 + 1) h,
)

-- The partition begins behind the boot sector, is not empty, and ends below 2 ^ 42.
pub record Fits (p : Partition) : Type 0 where
  pub behind : mbr_sector_size ≤ p.offset
  pub nonempty : mbr_sector_size ≤ p.size
  pub bounded : p.offset + p.size < 2 ^ 42
  pub ntfs : p.kind ≡ 0x07

entry-Fits : (mbr : List ℕ) (i : ℕ) (p : Partition) → AreBytes mbr → entry mbr i ≡ some p → Fits p
unfolding entry
entry-Fits mbr i p h e =
    let a = le_u32_lt mbr (446 + i * 16 + 8) h in
    let b = le_u32_lt mbr (446 + i * 16 + 12) h in
    record {
      behind = ground arith;
      nonempty = ground arith;
      bounded = ground arith;
      ntfs = ground arith;
    }

found-Fits :
    (mbr : List ℕ) (error : Option IoError) (r : MbrResult) (p : Partition)
    → AreBytes mbr
    → Search mbr error r
    → r ≡ found p
    → Fits p
found-Fits mbr (some x) r p h o e = cc (o, e)
found-Fits mbr none r p h (inl (a, b)) e = cc (b, e)
found-Fits mbr none r p h (inr (a, f)) e =
    let (k, l, m, c, d) = subst (IsFirst mbr 0 4) e f in entry-Fits mbr k p h c

-- A partition that is found in a sector of bytes begins behind the boot sector, has a sector at
-- least, ends below 2 ^ 42, so that no int64 product overflows, and is of type 7.
pub find_mbr_partition-Fits :
    (mbr : List ℕ) (error : Option IoError) (p : Partition)
    → AreBytes mbr
    → find_mbr_partition mbr error ≡ found p
    → Fits p
find_mbr_partition-Fits mbr error p h e =
    found-Fits mbr error _ p h (find_mbr_partition-Search mbr error) e
