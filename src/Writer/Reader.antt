-- ===== src/Writer/Reader.antt =====
-- What a reader of the overlay sees while the writer moves a write into the image.
use tssniff.Prelude.{
  ℕ, ◌+◌, ◌-◌, ◌≤◌, ◌<◌, ◌≡◌, ◌≢◌, refl, ◌∙◌, leb, ltb, ◌&&◌, add_u64, true, false, take, [], ◌∷◌,
  Option, none, some, arith, length, get_or, inl, inr, Option-cases,
}
use tssniff.Events.{WriteEvent, ObservedWrite, PunchRequest}
use tssniff.Shm.Io.{IoError, Io, Bytes, write_bytes, punch_bytes}
use tssniff.Journal.{Ring, WriteRecord, remember_write}
use tssniff.Shm.Extents.Owner.{owner}
use tssniff.Shm.Extents.Generation.{Owns}
use tssniff.Shm.Disk.{ShmDisk, release_if_current}
use tssniff.Shm.Disk.Valid.{IsValid}
use tssniff.Shm.Disk.View.{view, take_all}
use tssniff.Shm.Disk.Release.{IsFlushed, view-release_own}
use tssniff.Writer.{Writer, release_staged, process_write, process_punch}

-- The overlay holds the write: its extent is where its bytes go, all of it has an owner, and where
-- its own generation is the owner, the overlay has its bytes.
pub record IsStaged (s : ShmDisk) (write : WriteEvent) : Type 0 where
  pub begins : write.staged.start ≡ write.offset
  pub ends : write.staged.end ≡ write.offset + length write.bytes
  pub owned :
      (x : ℕ) → write.offset ≤ x → x < write.offset + length write.bytes → owner x s.extents ≢ none
  pub copied :
      (x : ℕ)
      → write.offset ≤ x
      → x < write.offset + length write.bytes
      → owner x s.extents ≡ some write.staged.gen
      → s.content x ≡ get_or write.bytes (x - write.offset) 0

module _ (base : Bytes) (s : ShmDisk) (write : WriteEvent) (v : IsStaged s write) where
  -- The image with the write is hidden behind the overlay.
  view-behind : (x : ℕ) → view (write_bytes base write.offset write.bytes) s x ≡ view base s x
  unfolding write_bytes
  view-behind x = elim (Option-cases (owner x s.extents)) [
    | inl e ↦ rw e (
        ground (
          arith,
          λ (a : write.offset ≤ x) (b : x < write.offset + length write.bytes). v.owned x a b e,
        ))
    | inr (g, e) ↦ rw e refl
  ]

  -- Where the generation owns all of its extent, the image has what a reader sees.
  flushed :
      Owns write.staged.start write.staged.end write.staged.gen s.extents
      → IsFlushed (write_bytes base write.offset write.bytes) s write.staged
  unfolding write_bytes
  flushed own y a b =
      let byte = v.copied y (omega (arith, v.begins)) (omega (arith, v.ends)) (own y a b) in
      rw (own y a b) (ground (arith, v.begins, v.ends, byte))

-- A write that reaches the image whole.
process_write_whole :
    (w : Writer) (ev : ObservedWrite) (punch : Option IoError)
    → ev.mpegts ≡ false
    → let w' = process_write w ev (record { count = length ev.event.bytes; error = none }) punch in
      (w'.disk ≡ write_bytes w.disk ev.event.offset ev.event.bytes)
      × (w'.shm ≡ (release_if_current w.shm (ev.event.staged ∷ []) (λ _. punch)).1)
unfolding process_write release_staged
process_write_whole w ev punch plain =
    ground (arith, take_all (length ev.event.bytes) ev.event.bytes refl)

-- While a valid overlay holds a write (its whole extent is owned, and where its own generation
-- owns a byte the overlay has that byte of the write), a `processWrite` that is not MPEG-TS and
-- whose `WriteAt` takes every byte does not change what a reader sees, whether or not the
-- release succeeds and whether or not a newer write has replaced a part of the extent.
pub view-process_write :
    (w : Writer) (ev : ObservedWrite) (punch : Option IoError) (x : ℕ)
    → IsValid w.shm
    → IsStaged w.shm ev.event
    → ev.mpegts ≡ false
    → let w' = process_write w ev (record { count = length ev.event.bytes; error = none }) punch in
      view w'.disk w'.shm x ≡ view w.disk w.shm x
view-process_write w ev punch x v staged plain =
    let write = ev.event in
    let done = process_write_whole w ev punch plain in
    let disk = write_bytes w.disk write.offset write.bytes in
    rw (done.0, done.1)
      (view-release_own disk w.shm write.staged (λ _. punch) x v (flushed w.disk w.shm write staged)
        ∙ view-behind w.disk w.shm write staged x)

-- The ways in which `processWrite` ends: an MPEG-TS write is released, any other goes to the image
-- as far as it gets, and is released behind it if all of it got there.
pub process_write_cases :
    (P : Writer → Type 0) (w : Writer) (ev : ObservedWrite) (io : Io) (punch : Option IoError)
    → let write = ev.event in
      let released : ShmDisk = (release_if_current w.shm (write.staged ∷ []) (λ _. punch)).1 in
      (ev.mpegts ≡ true → P (record w { shm = released }))
      → ((r : Ring WriteRecord)
          → ev.mpegts ≡ false
          → P (record w {
            disk = write_bytes w.disk write.offset (take io.count write.bytes);
            recent = r;
          }))
      → ((r : Ring WriteRecord)
          → ev.mpegts ≡ false
          → io.count ≡ length write.bytes
          → P (record w {
            disk = write_bytes w.disk write.offset (take io.count write.bytes);
            recent = r;
            shm = released;
          }))
      → P (process_write w ev io punch)
unfolding process_write release_staged
process_write_cases P w ev io punch ts part whole =
    let write = ev.event in
    let recent =
      remember_write w.recent write.seq write.offset (add_u64 write.offset (length write.bytes)) in
    ground (arith, ts, part recent, whole recent)

-- A punch changes the image in its range only.
pub process_punch-outside :
    (w : Writer) (req : PunchRequest) (fault : Option IoError) (x : ℕ)
    → (leb req.start x && ltb x (req.start + (req.end - req.start))) ≡ false
    → (process_punch w req fault).disk x ≡ w.disk x
unfolding process_punch punch_bytes
process_punch-outside w req fault x out = ground (arith, out)
