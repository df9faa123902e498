-- ===== src/Fuse.antt =====
-- fuse.go: the file that the mount serves. What the operating system returns is an argument; the
-- events that `SubmitWrite` of pipeline.go takes are kept in a list, also those that a goroutine of
-- their own sends.
pub mod Reads
pub mod Numbers
pub mod Outcomes
mod Tests
use tssniff.Prelude.{
  ℕ, ◌+◌, ◌-◌, ◌/◌, ◌%◌, ◌^◌, Bool, true, false, ◌||◌, List, [], ◌∷◌, ◌++◌, Option, none, some, ltb,
  leb, ◌==◌, if◌then◌else◌, add_u64, length, ℤ, pos, negsuc,
}
use tssniff.Shm.Io.{
  IoError, eof, errno, Io, Bytes, ShmError, nil_base, zero_size, shm_closed, invalid_range,
  outside_volume, short_write, unexpected_eof, os_error, Result, ok, err,
}
use tssniff.Shm.Extents.{ShmExtent}
use tssniff.Shm.Disk.{ShmDisk, stage_write, read_at}
use tssniff.Events.{WriteEvent}
use tssniff.Ntfs.Volume.{Ntfs, touches_mft}

-- The errors of a request; `other` is an error number that a call on a file returned.
pub data Errno : Type 0 where
  einval efbig eio eintr : Errno
  other : ℕ → Errno

-- What a request returns: its value, or an error.
pub data Reply {ℓ} (A : Type ℓ) : Type ℓ where
  done : A → Reply A
  failed : Errno → Reply A

-- `DiskNode`, with the flag and the events of the pipeline.
pub record DiskNode : Type 0 where
  pub size : ℕ
  pub seq : ℕ
  pub shm : ShmDisk
  pub ntfs : Ntfs
  pub closing : Bool
  pub submitted : List WriteEvent

-- The attributes of the file.
pub record Attr : Type 0 where
  pub size : ℕ
  pub block_size : ℕ
  pub blocks : ℕ

-- `toErrno` of an error of the overlay.
pub to_errno : ShmError → Errno
to_errno (os_error (errno e)) = other e
to_errno (os_error eof) = eio
to_errno nil_base = eio
to_errno zero_size = eio
to_errno shm_closed = eio
to_errno invalid_range = eio
to_errno outside_volume = eio
to_errno short_write = eio
to_errno unexpected_eof = eio

-- `mountDiskFS`, with the size of the image or the error of `Stat`, and the error of the mount.
unfoldable pub mount_disk_fs : Result ℕ → Option IoError → ShmDisk → Ntfs → Result DiskNode
mount_disk_fs (err e) mounting shm ntfs = err e
mount_disk_fs (ok size) (some e) shm ntfs = err (os_error e)
mount_disk_fs (ok size) none shm ntfs =
    ok (record { size = size; seq = 0; shm = shm; ntfs = ntfs; closing = false; submitted = [] })

-- `Getattr` of the file
pub getattr : DiskNode → Attr
getattr d = record { size = d.size; block_size = 512; blocks = add_u64 d.size 511 / 512 }

-- What `Read` makes of the result of `ReadAt`.
pub read_reply : Result (List ℕ) → Reply (List ℕ)
read_reply (ok bytes) = done bytes
read_reply (err e) = failed (to_errno e)

-- `Read` of `len` bytes; the other arguments are those of `ReadAt`.
pub read : Bytes → Io → (ℕ → ℕ → Io) → DiskNode → ℕ → ℤ → Reply (List ℕ)
read base base_io io_of d len (negsuc off) = failed einval
read base base_io io_of d len (pos start) =
    if leb d.size start || len == 0
    then done []
    else let n = if ltb (d.size - start) len then d.size - start else len in
      read_reply (read_at base base_io io_of d.shm n (pos start))

-- `SubmitWrite`
unfoldable pub submit_write : DiskNode → WriteEvent → Option Errno × DiskNode
submit_write d ev =
    if d.closing then (some eio, d) else (none, record d { submitted = d.submitted ++ (ev ∷ []) })

-- The end of `Write`, for the error of `SubmitWrite`; the length becomes a `uint32`.
unfoldable pub write_reply : ℕ → Option Errno × DiskNode → Reply ℕ × DiskNode
write_reply len (some e, d) = (failed e, d)
write_reply len (none, d) = (done (len % 2 ^ 32), d)

-- `Write` behind the call of `StageWrite`.
unfoldable pub staged : DiskNode → List ℕ → ℕ → Result ShmExtent × ShmDisk → Reply ℕ × DiskNode
staged d bytes start (err e, shm) = (failed eio, record d { shm = shm })
staged d bytes start (ok extent, shm) =
    let end = add_u64 start (length bytes) in
    let seq = add_u64 d.seq 1 in
    let ev : WriteEvent = record {
      seq = seq;
      offset = start;
      bytes = bytes;
      staged = extent;
      touches_mft = touches_mft d.ntfs start end;
    } in
    write_reply (length bytes) (
      submit_write
        (record d { size = if ltb d.size end then end else d.size; seq = seq; shm = shm }) ev)

-- `Write`; `io` is what the overlay file's `WriteAt` returns.
unfoldable pub write : DiskNode → List ℕ → ℤ → Io → Reply ℕ × DiskNode
write d bytes (negsuc off) io = (failed einval, d)
write d bytes (pos start) io =
    if length bytes == 0
    then (done 0, d)
    else if ltb (2 ^ 64 - 1 - start) (length bytes)
    then (failed efbig, d)
    else staged d bytes start (stage_write d.shm bytes start io)

-- Which of the two channels of `syncWriter` was ready: that of the pipeline, with the error of the
-- barrier, or that of the request's context.
pub data Wakeup : Type 0 where
  finished : Option IoError → Wakeup
  cancelled : Wakeup

-- `syncWriter`: the number that the barrier waits for, and the reply.
pub sync_writer : DiskNode → Wakeup → ℕ × Option Errno
sync_writer d cancelled = (d.seq, some eintr)
sync_writer d (finished none) = (d.seq, none)
sync_writer d (finished (some (errno e))) = (d.seq, some (other e))
sync_writer d (finished (some eof)) = (d.seq, some eio)

-- `Flush` and `Fsync`
pub flush : DiskNode → Wakeup → ℕ × Option Errno
flush d woken = sync_writer d woken

pub fsync : DiskNode → Wakeup → ℕ × Option Errno
fsync d woken = sync_writer d woken
