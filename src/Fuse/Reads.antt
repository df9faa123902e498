-- ===== src/Fuse/Reads.antt =====
-- Reads of fuse.go behind a write.
use tssniff.Prelude.{
  ℕ, ◌+◌, ◌-◌, ◌^◌, ◌≤◌, ◌<◌, ◌≡◌, ◌⊎◌, refl, ◌∙◌, ap, sym, subst, false, ◌||◌, ◌&&◌, List, none,
  some, arith, ltb, leb, ◌==◌, if◌then◌else◌, length, get_or, pos, inl, inr, Bool-cases,
}
use tssniff.Shm.Io.{Io, Bytes, eof, Result, ok, err}
use tssniff.Shm.Extents.{ShmExtent}
use tssniff.Shm.Disk.{ShmDisk, stage_write, tabulate}
use tssniff.Shm.Disk.Valid.{IsValid, stage_write-IsValid}
use tssniff.Shm.Disk.View.{view, view-stage_write}
use tssniff.Shm.Disk.Read.{full_read, read_at-view, tabulate_same}
use tssniff.Fuse.{done, DiskNode, read, read_reply, submit_write, write_reply, staged, write}

-- What a reader sees, of a node whose image is `base`, once `bytes` are put at `start`.
abbrev pub overwritten : Bytes → DiskNode → List ℕ → ℕ → Bytes
overwritten base d bytes start x =
    if leb start x && ltb x (start + length bytes)
    then get_or bytes (x - start) 0
    else view base d.shm x

-- The overlay behind a request, whatever the rest of it does.
staged-shm :
    (d : DiskNode) (bytes : List ℕ) (start : ℕ) (r : Result ShmExtent × ShmDisk)
    → (staged d bytes start r).1.shm ≡ r.1
unfolding staged submit_write write_reply
staged-shm d bytes start (err e, shm) = refl
staged-shm d bytes start (ok extent, shm) = elim (Bool-cases d.closing) [
  | inl e ↦ rw e refl
  | inr e ↦ rw e refl
]

-- A write that is not refused was staged.
staged-done :
    (d : DiskNode) (bytes : List ℕ) (start : ℕ) (r : Result ShmExtent × ShmDisk) {n : ℕ}
    → (staged d bytes start r).0 ≡ done n
    → (e : ShmExtent) × (r.0 ≡ ok e)
unfolding staged
staged-done d bytes start (err e, shm) h = cc
staged-done d bytes start (ok extent, shm) h = (extent, refl)

-- A write of some bytes that is not refused is the one that was staged.
write-staged :
    (d : DiskNode) (bytes : List ℕ) (start : ℕ) (io : Io) {n : ℕ}
    → 0 < length bytes
    → (write d bytes (pos start) io).0 ≡ done n
    → write d bytes (pos start) io ≡ staged d bytes start (stage_write d.shm bytes start io)
unfolding write
write-staged d bytes start io p h =
    let some_bytes : (length bytes == 0) ≡ false = ground arith in
    elim (Bool-cases (ltb (2 ^ 64 - 1 - start) (length bytes))) [
      | inl e ↦ absurd (ground arith)
      | inr e ↦ rw (some_bytes, e) refl
    ]

write-view :
    (base : Bytes) (d : DiskNode) (bytes : List ℕ) (start : ℕ) (io : Io) {n : ℕ}
    → IsValid d.shm
    → d.shm.next_gen + 1 < 2 ^ 64
    → (write d bytes (pos start) io).0 ≡ done n
    → IsValid (write d bytes (pos start) io).1.shm
      × ((x : ℕ)
          → view base (write d bytes (pos start) io).1.shm x ≡ overwritten base d bytes start x)
unfolding write
write-view base d bytes start io v w h = elim (Bool-cases (length bytes == 0)) [
  | inl e ↦ rw e (v, λ x. ground arith)
  | inr e ↦
      let same = write-staged d bytes start io (ground arith) h in
      let kept =
        ap (λ r. r.1.shm) same ∙ staged-shm d bytes start (stage_write d.shm bytes start io) in
      let (extent, made) =
        staged-done d bytes start (stage_write d.shm bytes start io)
          (sym (ap (λ r. r.0) same) ∙ h) in
      (
        subst IsValid (sym kept) (stage_write-IsValid d.shm bytes start io v w),
        λ x. ap (λ s. view base s x) kept ∙ view-stage_write base d.shm bytes start io x v made,
      )
]

-- A nonempty read within the file and the volume, where no call fails, gives what a reader sees.
pub read-view :
    (base : Bytes) (d : DiskNode) (base_io : Io) (len off : ℕ)
    → IsValid d.shm
    → 0 < len
    → off + len ≤ d.size
    → off + len ≤ d.shm.size
    → (base_io.error ≡ none) ⊎ (base_io.error ≡ some eof)
    → ((i : ℕ) → base_io.count ≤ i → base (off + i) ≡ 0)
    → read base base_io full_read d len (pos off)
      ≡ done (tabulate len 0 (λ i. view base d.shm (off + i)))
unfolding read read_reply
read-view base d base_io len off v p a b e zeros =
    let inside : (leb d.size off || len == 0) ≡ false = ground arith in
    let whole : ltb (d.size - off) len ≡ false = ground arith in
    rw (inside, whole, read_at-view base d.shm v base_io len off p b e zeros, if◌then◌else◌) refl

-- Behind a `Write` that is not refused, on a valid overlay whose generation counter does not
-- wrap, a nonempty `Read` within the file and the volume, whose reads of the overlay are
-- complete and whose read of the image ends without an error or with EOF (the image being zero
-- past what was read), returns for each byte that of the write where the write has one, and
-- else what a reader saw before.
pub read-write :
    (base : Bytes) (d : DiskNode) (bytes : List ℕ) (start : ℕ) (io : Io) {n : ℕ} (base_io : Io)
    (len off : ℕ)
    → IsValid d.shm
    → d.shm.next_gen + 1 < 2 ^ 64
    → (write d bytes (pos start) io).0 ≡ done n
    → 0 < len
    → let d' = (write d bytes (pos start) io).1 in
      off + len ≤ d'.size
      → off + len ≤ d'.shm.size
      → (base_io.error ≡ none) ⊎ (base_io.error ≡ some eof)
      → ((i : ℕ) → base_io.count ≤ i → base (off + i) ≡ 0)
      → read base base_io full_read d' len (pos off)
        ≡ done (tabulate len 0 (λ i. overwritten base d bytes start (off + i)))
read-write base d bytes start io base_io len off v w h p a b e zeros =
    let d' = (write d bytes (pos start) io).1 in
    let (v', seen) = write-view base d bytes start io v w h in
    read-view base d' base_io len off v' p a b e zeros
    ∙ ap done (
        tabulate_same len 0 (λ i. view base d'.shm (off + i))
          (λ i. overwritten base d bytes start (off + i)) (λ j k. seen (off + j)))
