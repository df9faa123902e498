-- ===== src/Writer.antt =====
-- writer.go: what the writer does with a command or a punch. The image is a byte for each offset;
-- what the operating system returns is an argument. Logging is left out.
pub mod Disk
pub mod Reader
pub mod Loop
mod Tests
use tssniff.Prelude.{
  ℕ, ◌+◌, ◌-◌, Bool, true, false, not, List, [], ◌∷◌, Option, none, some, ltb, leb, ◌==◌,
  if◌then◌else◌, add_u64, length, take,
}
use tssniff.Events.{WriteEvent, ObservedWrite, PunchRequest}
use tssniff.Journal.{Ring, WriteRecord, remember_write, has_newer_overlap}
use tssniff.Shm.Io.{IoError, Io, Bytes, write_bytes, punch_bytes}
use tssniff.Shm.Disk.{ShmDisk, release_if_current}

-- `Writer`, with the image and the overlay that it works on.
pub record Writer : Type 0 where
  pub disk : Bytes
  pub shm : ShmDisk
  pub recent : Ring WriteRecord

-- `w.shm.ReleaseIfCurrent([]ShmExtent{write.Staged})`
unfoldable pub release_staged : Writer → WriteEvent → Option IoError → Writer
release_staged w ev punch = record w {
  shm = (release_if_current w.shm (ev.staged ∷ []) (λ _. punch)).1;
}

-- `processWrite`. `io` is what `disk.WriteAt` returns, `punch` the error of the overlay's
-- `Fallocate`.
unfoldable pub process_write : Writer → ObservedWrite → Io → Option IoError → Writer
process_write w ev io punch =
    let write = ev.event in
    let end = add_u64 write.offset (length write.bytes) in
    if ev.mpegts
    then release_staged w write punch
    else let w' : Writer = record w {
      disk = write_bytes w.disk write.offset (take io.count write.bytes);
      recent = remember_write w.recent write.seq write.offset end;
    } in
      elim io.error [
        | some e ↦ w'
        | none ↦ if not (io.count == length write.bytes) then w' else release_staged w' write punch
      ]

-- `processPunch`; `fallocate` is the error of the call, which changes nothing when it fails.
pub process_punch : Writer → PunchRequest → Option IoError → Writer
process_punch w req fallocate =
    if leb req.end req.start
    then w
    else if has_newer_overlap w.recent req.capture_seq req.start req.end
    then w
    else elim fallocate [
      | some e ↦ w
      | none ↦ record w { disk = punch_bytes w.disk req.start req.end }
    ]
