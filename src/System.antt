-- ===== src/System.antt =====
-- The parts of the program together, from a request of fuse.go to the image: the write goes through
-- the overlay of shm.go and the queue of pipeline.go to processWrite and processPunch of writer.go.
-- Beside it stands what the bytes of the disk should be, which is written without the overlay.
pub mod Pending
pub mod Holds
pub mod Served
pub mod Requests
pub mod Settled
pub mod Steps
pub mod Run
pub mod Reader
pub mod Start
pub mod Plain
mod Tests
use tssniff.Prelude.{
  ℕ, ◌+◌, ◌-◌, Bool, true, false, not, ◌&&◌, ◌||◌, List, [], ◌∷◌, Option, none, some, ltb, leb,
  if◌then◌else◌, length, get_or, pos,
}
use tssniff.Events.{WriteEvent, PunchRequest}
use tssniff.Journal.{Ring, WriteRecord}
use tssniff.Shm.Io.{IoError, Io, Bytes, Result, ok, err}
use tssniff.Shm.Disk.{new_shm_disk}
use tssniff.Ntfs.Volume.{Ntfs}
use tssniff.Fuse.{Reply, done, failed, DiskNode, mount_disk_fs, write}
use tssniff.Writer.{Writer, process_write, process_punch}

-- The file with its overlay and the writes that the writer has not taken yet, oldest first, the
-- image, and the writer's ring of recent writes.
pub record System : Type 0 where
  pub node : DiskNode
  pub disk : Bytes
  pub recent : Ring WriteRecord

-- An image of `size` bytes, with the errors of the calls of NewSHMDisk and of the mount, the NTFS
-- reader and the empty ring of the writer.
pub start_system :
    Bytes
    → ℕ
    → Option IoError
    → Option IoError
    → Option IoError
    → Ntfs
    → Ring WriteRecord
    → Result System
start_system image size create truncate mounting ntfs recent =
    elim (new_shm_disk true size create truncate) [
      | err e ↦ err e
      | ok shm ↦ elim (mount_disk_fs (ok size) mounting shm ntfs) [
        | err e ↦ err e
        | ok node ↦ ok (record { node = node; disk = image; recent = recent })
      ]
    ]

-- The writer has the overlay of the file.
pub writer_of : System → Writer
writer_of s = record { disk = s.disk; shm = s.node.shm; recent = s.recent }

-- What can happen: a request to write with the result of `WriteAt` on the overlay; the writer takes
-- its next write, with the flag of the sniffer, the result of `WriteAt` on the image and the error
-- of the release; a punch of the reconciler, with the error of `Fallocate` on the image.
pub data Action : Type 0 where
  request : List ℕ → ℕ → Io → Action
  settle : Bool → Io → Option IoError → Action
  punch : PunchRequest → Option IoError → Action

pub settle_next : List WriteEvent → Bool → Io → Option IoError → System → System
unfolding writer_of
settle_next [] mpegts io e s = s
settle_next (ev ∷ evs) mpegts io e s =
    let w =
      process_write (writer_of s) (record { event = ev; mpegts = mpegts; captures = [] }) io e in
    record s {
      node = record s.node { shm = w.shm; submitted = evs };
      disk = w.disk;
      recent = w.recent;
    }

pub act : Action → System → System
unfolding writer_of settle_next
act (request bytes start io) s = record s { node = (write s.node bytes (pos start) io).1 }
act (settle mpegts io e) s = settle_next s.node.submitted mpegts io e s
act (punch req e) s = record s { disk = (process_punch (writer_of s) req e).disk }

pub act_all : List Action → System → System
act_all [] s = s
act_all (a ∷ rest) s = act_all rest (act a s)

-- The bytes that the disk should have; `known` says where a reader must see them, `kept` where the
-- image must get them.
pub record Promise : Type 0 where
  pub byte : Bytes
  pub known : ℕ → Bool
  pub kept : ℕ → Bool

-- `x` is in the range of `n` bytes from `start` on.
abbrev pub in_range : ℕ → ℕ → ℕ → Bool
in_range start n x = leb start x && ltb x (start + n)

-- One of the writes has the byte.
pub covered : List WriteEvent → ℕ → Bool
covered [] x = false
covered (ev ∷ evs) x = in_range ev.offset (length ev.bytes) x || covered evs x

-- A request that is taken gives its bytes; one that is refused makes its range unknown.
pub promise_request : Reply ℕ → List ℕ → ℕ → Promise → Promise
promise_request (done n) bytes start p = record {
  byte = λ x. if in_range start (length bytes) x then get_or bytes (x - start) 0 else p.byte x;
  known = λ x. in_range start (length bytes) x || p.known x;
  kept = λ x. in_range start (length bytes) x || p.kept x;
}
promise_request (failed e) bytes start p = record p {
  known = λ x. not (in_range start (length bytes) x) && p.known x;
}

-- A range is given up, but for the bytes that a write in the queue has.
pub give_up : List WriteEvent → ℕ → ℕ → (ℕ → Bool) → ℕ → Bool
give_up evs start n known x = (not (in_range start n x) || covered evs x) && known x

-- The bytes of an MPEG-TS write are given up. Those that the image does not take whole stay in the
-- overlay only.
pub promise_settle : List WriteEvent → Bool → Io → Promise → Promise
unfolding give_up
promise_settle [] mpegts io p = p
promise_settle (ev ∷ evs) true io p = record p {
  known = give_up evs ev.offset (length ev.bytes) p.known;
  kept = give_up evs ev.offset (length ev.bytes) p.kept;
}
promise_settle (ev ∷ evs) false io p =
    if leb (length ev.bytes) io.count
    then p
    else record p { kept = give_up evs ev.offset (length ev.bytes) p.kept }

-- What an action does to the promise; the state says which request is refused and which write is
-- next.
pub promise : Action → System → Promise → Promise
unfolding promise_request promise_settle give_up
promise (request bytes start io) s p =
    promise_request (write s.node bytes (pos start) io).0 bytes start p
promise (settle mpegts io e) s p = promise_settle s.node.submitted mpegts io p
promise (punch req e) s p = record p {
  known = give_up s.node.submitted req.start (req.end - req.start) p.known;
  kept = give_up s.node.submitted req.start (req.end - req.start) p.kept;
}

pub promise_all : List Action → System → Promise → Promise
promise_all [] s p = p
promise_all (a ∷ rest) s p = promise_all rest (act a s) (promise a s p)
