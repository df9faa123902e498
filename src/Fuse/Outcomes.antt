-- ===== src/Fuse/Outcomes.antt =====
-- The ways in which `Write` of fuse.go ends.
use tssniff.Prelude.{
  ℕ, ◌-◌, ◌%◌, ◌^◌, ◌≤◌, ◌<◌, ◌≡◌, refl, sym, ap, Bool, List, [], ◌∷◌, ◌++◌, Option, arith, length,
  ltb, ◌==◌, pos, inl, inr, Bool-cases,
}
use tssniff.Events.{WriteEvent}
use tssniff.Ntfs.Volume.{Ntfs}
use tssniff.Shm.Io.{Io, IoError, Result, ok, err}
use tssniff.Shm.Extents.{ShmExtent}
use tssniff.Shm.Disk.{ShmDisk, stage_write}
use tssniff.Fuse.{
  mount_disk_fs, Reply, done, failed, eio, efbig, DiskNode, write, staged, submit_write,
  write_reply,
}

-- The event of a request that was staged.
abbrev pub event_of : List ℕ → ℕ → ShmExtent → ℕ → Bool → WriteEvent
event_of bytes start e seq touches = record {
  seq = seq;
  offset = start;
  bytes = bytes;
  staged = e;
  touches_mft = touches;
}

module _ (P : Reply ℕ × DiskNode → Type 0) (d : DiskNode) (bytes : List ℕ) (start : ℕ) (io : Io)
    (empty : (n : ℕ) → length bytes ≡ 0 → P (done n, d)) (too_big : P (failed efbig, d))
    (dropped : (d' : DiskNode)
      → d'.submitted ≡ d.submitted
      → d'.shm ≡ (stage_write d.shm bytes start io).1
      → P (failed eio, d'))
    (taken : (d' : DiskNode) (n : ℕ)
      → 0 < length bytes
      → (e : ShmExtent) (seq : ℕ) (touches : Bool) → (stage_write d.shm bytes start io).0 ≡ ok e
      → d'.submitted ≡ d.submitted ++ (event_of bytes start e seq touches ∷ [])
      → d'.shm ≡ (stage_write d.shm bytes start io).1
      → P (done n, d')) where
  staged_cases :
      (r : Result ShmExtent × ShmDisk)
      → 0 < length bytes
      → r ≡ stage_write d.shm bytes start io
      → P (staged d bytes start r)
  unfolding staged submit_write write_reply
  staged_cases (err e, shm) some_bytes same =
      dropped (record d { shm = shm }) refl (ap (λ r. r.1) same)
  staged_cases (ok e, shm) some_bytes same = elim (Bool-cases d.closing) [
    | inl c ↦ rw c (dropped _ refl (ap (λ r. r.1) same))
    | inr c ↦ rw c (
        taken _ (length bytes % 2 ^ 32) some_bytes e _ _ (sym (ap (λ r. r.0) same)) refl
          (ap (λ r. r.1) same))
  ]

  -- A request is empty, too big, staged without an event, or staged with its event.
  pub write_cases : P (write d bytes (pos start) io)
  unfolding write
  write_cases = elim (Bool-cases (length bytes == 0)) [
    | inl z ↦ rw z (empty 0 (ground (arith, z)))
    | inr z ↦ elim (Bool-cases (ltb (2 ^ 64 - 1 - start) (length bytes))) [
      | inl big ↦ rw (z, big) too_big
      | inr big ↦ rw (z, big) (staged_cases _ (ground (arith, z)) refl)
    ]
  ]

-- The file does not shrink.
pub size-write :
    (d : DiskNode) (bytes : List ℕ) (start : ℕ) (io : Io)
    → d.size ≤ (write d bytes (pos start) io).1.size
unfolding write staged submit_write write_reply
size-write d bytes start io = ground (arith, size-staged (stage_write d.shm bytes start io))
  where
    size-staged : (r : Result ShmExtent × ShmDisk) → d.size ≤ (staged d bytes start r).1.size
    size-staged (err e, shm) = omega arith
    size-staged (ok e, shm) = elim (Bool-cases d.closing) [
      | inl c ↦ rw c (ground arith)
      | inr c ↦ rw c (ground arith)
    ]

-- The file that a mount serves.
pub mount_disk_fs-ok :
    (size : ℕ) (mounting : Option IoError) (shm : ShmDisk) (ntfs : Ntfs) {d : DiskNode}
    → mount_disk_fs (ok size) mounting shm ntfs ≡ ok d
    → (d.size ≡ size) × (d.shm ≡ shm) × (d.submitted ≡ [])
unfolding mount_disk_fs
mount_disk_fs-ok size mounting shm ntfs h = ground arith
