-- ===== src/Shm/Disk/View.antt =====
-- The bytes that a reader of the overlay sees, and what each method does to them.
use tssniff.Prelude.{
  ℕ, zero, suc, ◌+◌, ◌-◌, ◌≤◌, ◌<◌, ◌≡◌, refl, ap, false, ◌&&◌, List, [], ◌∷◌, Option, none, some,
  arith, ltb, leb, if◌then◌else◌, add_u64, length, take, get_or, inl, inr, Bool-cases,
}
use tssniff.Shm.Io.{Io, Bytes, write_bytes, ok}
use tssniff.Shm.Extents.{ShmExtent, replace_range}
use tssniff.Shm.Extents.Owner.{owner, within, IsOrdered}
use tssniff.Shm.Extents.Replace.{owner-replace_range}
use tssniff.Shm.Disk.{ShmDisk, stage_write}
use tssniff.Shm.Disk.Valid.{IsValid}

-- An owned byte comes from the overlay, any other from the physical image.
abbrev pub seen : ℕ → ℕ → Option ℕ → ℕ
seen below above none = below
seen below above (some g) = above

abbrev pub view : Bytes → ShmDisk → Bytes
view base s x = seen (base x) (s.content x) (owner x s.extents)

pub take_all : (n : ℕ) (xs : List ℕ) → n ≡ length xs → take n xs ≡ xs
take_all zero [] h = refl
take_all zero (x ∷ xs) h = absurd (omega arith)
take_all (suc n) [] h = absurd (omega arith)
take_all (suc n) (x ∷ xs) h = ap (◌∷◌ x) (take_all n xs (omega arith))

-- A successful `StageWrite` returns the extent of its bytes.
pub stage_write-ok :
    (s : ShmDisk) (bytes : List ℕ) (off : ℕ) (io : Io) {e : ShmExtent}
    → IsValid s
    → 0 < length bytes
    → (stage_write s bytes off io).0 ≡ ok e
    → (e ≡ record { start = off; end = off + length bytes; gen = s.next_gen })
      × (off + length bytes ≤ s.size)
      × (s.closed ≡ false)
      × ((stage_write s bytes off io).1 ≡ record s {
        content = write_bytes s.content off bytes;
        next_gen = add_u64 s.next_gen 1;
        extents = replace_range e s.extents;
      })
unfolding stage_write
stage_write-ok s bytes off io v n h = ground (arith, take_all io.count bytes, v.small)

pub stage_write_nothing :
    (s : ShmDisk) (bytes : List ℕ) (off : ℕ) (io : Io)
    → length bytes ≡ 0
    → (stage_write s bytes off io).1 ≡ s
unfolding stage_write
stage_write_nothing s bytes off io e = ground arith

-- The view of the disk that a successful `StageWrite` leaves.
view-staged :
    (base : Bytes) (s : ShmDisk) (bytes : List ℕ) (off x : ℕ)
    → 0 < length bytes
    → IsOrdered 0 s.extents
    → let n : ShmExtent = record { start = off; end = off + length bytes; gen = s.next_gen } in
      seen (base x) (write_bytes s.content off bytes x) (owner x (replace_range n s.extents))
      ≡ (if within x n then get_or bytes (x - off) 0 else view base s x)
unfolding write_bytes
view-staged base s bytes off x h o = ground (
  arith,
  owner-replace_range (record { start = off; end = off + length bytes; gen = s.next_gen }) s.extents
      (omega arith) o x,
)

-- After a successful `StageWrite` on a valid disk a reader sees the bytes of the write in its
-- range and what it saw before everywhere else.
pub view-stage_write :
    (base : Bytes) (s : ShmDisk) (bytes : List ℕ) (off : ℕ) (io : Io) {e : ShmExtent} (x : ℕ)
    → IsValid s
    → (stage_write s bytes off io).0 ≡ ok e
    → view base (stage_write s bytes off io).1 x ≡ (
        if leb off x && ltb x (off + length bytes) then get_or bytes (x - off) 0 else view base s x)
view-stage_write base s bytes off io x v h = elim (Bool-cases (ltb 0 (length bytes))) [
  | inr none_in ↦ rw (stage_write_nothing s bytes off io (ground arith)) (ground arith)
  | inl some_in ↦
      let done = stage_write-ok s bytes off io v (ground arith) h in
      rw (done.3, done.0) (view-staged base s bytes off x (ground arith) v.ordered)
]
