-- ===== src/Shm/Disk.antt =====
-- `SHMDisk` of shm.go. The overlay file is a byte for each offset; what the operating system
-- returns from a call on a file is an argument. The lock makes each method one
-- step, but for `ReadAt`: it reads the image before it takes the lock, so `read_at` is given the image
-- of that moment beside the overlay of its scan, which may be a later one.
pub mod Valid
pub mod View
pub mod Read
pub mod Release
mod Tests
use tssniff.Prelude.{
  ℕ, zero, suc, ◌+◌, ◌-◌, Bool, true, false, not, ◌||◌, ◌&&◌, List, [], ◌∷◌, Option, none, some,
  ltb, leb, ◌==◌, if◌then◌else◌, add_u64, length, take, get_or, ℤ, pos, negsuc,
}
use tssniff.Ranges.{max_u64, min_u64}
use tssniff.Shm.Io.{
  IoError, eof, errno, Io, Bytes, write_bytes, punch_bytes, ShmError, nil_base, zero_size,
  shm_closed, invalid_range, outside_volume, short_write, unexpected_eof, os_error, Result, ok, err,
}
use tssniff.Shm.Extents.{ShmExtent, replace_range, remove_range_generation, covers_generation}

-- `SHMDisk`. `closed` stands for the closed flag and the file that is gone with it.
pub record ShmDisk : Type 0 where
  pub size : ℕ
  pub content : Bytes
  pub next_gen : ℕ
  pub closed : Bool
  pub extents : List ShmExtent

-- `NewSHMDisk`; the errors of `os.CreateTemp` and of `Truncate` are given.
unfoldable pub new_shm_disk : Bool → ℕ → Option IoError → Option IoError → Result ShmDisk
new_shm_disk has_base size create truncate =
    if not has_base then err nil_base else if size == 0 then err zero_size else elim create [
      | some e ↦ err (os_error e)
      | none ↦ elim truncate [
        | some e ↦ err (os_error e)
        | none ↦
            ok
              (record { size = size; content = λ _. 0; next_gen = 1; closed = false; extents = [] })
      ]
    ]

-- Whether `[off, off + len)` leaves the volume: the guard of `StageWrite` and `ReadAt`. The
-- subtraction is made only below `size`, so it does not wrap.
abbrev pub outside : ℕ → ℕ → ℕ → Bool
outside size off len = leb size off || ltb (size - off) len

-- What `StageWrite` does under the lock once its bytes are in the file.
pub commit : ShmDisk → ShmExtent → Result ShmExtent × ShmDisk
commit s extent = (
  ok extent,
  record s { next_gen = add_u64 s.next_gen 1; extents = replace_range extent s.extents },
)

-- `StageWrite`. `io` is what `file.WriteAt` returns; it has written `io.count` bytes.
unfoldable pub stage_write : ShmDisk → List ℕ → ℕ → Io → Result ShmExtent × ShmDisk
unfolding commit
stage_write s bytes off io =
    if length bytes == 0
    then (ok (record { start = off; end = off; gen = 0 }), s)
    else if outside s.size off (length bytes)
    then (err outside_volume, s)
    else if s.closed
    then (err shm_closed, s)
    else let written : ShmDisk = record s {
      content = write_bytes s.content off (take io.count bytes);
    } in
      elim io.error [
        | some e ↦ (err (os_error e), written)
        | none ↦
            if not (io.count == length bytes)
            then (err short_write, written)
            else commit written
                (record { start = off; end = add_u64 off (length bytes); gen = s.next_gen })
      ]

-- The destination of a read, as a byte for each index below its length, after `count` bytes of a
-- file from `a` on were put at index `at`.
blit : Bytes → ℕ → ℕ → ℕ → Bytes → Bytes
blit content a at count dst i =
    if leb at i && ltb i (at + count) then content (a + (i - at)) else dst i

-- `err != nil && err != io.EOF`
abbrev pub fatal : Option IoError → Option IoError
fatal none = none
fatal (some eof) = none
fatal (some (errno e)) = some (errno e)

-- One copy of overlay bytes `[a, b)` into the destination, and the checks behind it.
copy_overlay : Bytes → ℕ → ℕ → ℕ → Io → Bytes → Result Bytes
unfolding blit
copy_overlay content start a b io dst = elim (fatal io.error) [
  | some e ↦ err (os_error e)
  | none ↦
      if not (io.count == b - a)
      then err unexpected_eof
      else ok (blit content a (a - start) io.count dst)
]

-- The loop of `ReadAt` over the extents; `io_of a n` is what a read of `n` overlay bytes at `a`
-- returns.
overlay_from : Bytes → (ℕ → ℕ → Io) → ℕ → ℕ → List ShmExtent → Bytes → Result Bytes
unfolding copy_overlay max_u64 min_u64
overlay_from content io_of start req_end [] dst = ok dst
overlay_from content io_of start req_end (e ∷ es) dst = elim (leb e.end start) [
  | true ↦ overlay_from content io_of start req_end es dst
  | false ↦ elim (leb req_end e.start) [
    | true ↦ ok dst
    | false ↦
        let a = max_u64 start e.start in
        let b = min_u64 req_end e.end in
        elim (leb b a) [
          | true ↦ overlay_from content io_of start req_end es dst
          | false ↦ elim (copy_overlay content start a b (io_of a (b - a)) dst) [
            | err x ↦ err x
            | ok dst' ↦ overlay_from content io_of start req_end es dst'
          ]
        ]
  ]
]

-- The bytes of a destination of length `n`, from index `i` on.
pub tabulate : ℕ → ℕ → Bytes → List ℕ
tabulate zero i dst = []
tabulate (suc n) i dst = dst i ∷ tabulate n (i + 1) dst

abbrev listed : ℕ → Result Bytes → Result (List ℕ)
listed n (ok dst) = ok (tabulate n 0 dst)
listed n (err e) = err e

-- The destination after `base.ReadAt` and the `clear` of what it left.
from_base : Bytes → ℕ → Io → Bytes
from_base base start io i = if ltb i io.count then base (start + i) else 0

-- `ReadAt` into a destination of `len` bytes. `base` is the physical image, `base_io` what a read
-- of it returns.
pub read_at : Bytes → Io → (ℕ → ℕ → Io) → ShmDisk → ℕ → ℤ → Result (List ℕ)
unfolding overlay_from tabulate from_base
read_at base base_io io_of s len (negsuc off) = err invalid_range
read_at base base_io io_of s len (pos start) =
    if len == 0
    then ok []
    else if outside s.size start len
    then err outside_volume
    else elim (fatal base_io.error) [
      | some e ↦ err (os_error e)
      | none ↦
          let dst : Bytes = from_base base start base_io in
          if s.closed
          then ok (tabulate len 0 dst)
          else listed len (overlay_from s.content io_of start (add_u64 start len) s.extents dst)
    ]

-- `if firstErr == nil { firstErr = err }`
abbrev first_error : Option ShmError → Option ShmError → Option ShmError
first_error none e = e
first_error (some f) e = some f

-- One round of `ReleaseIfCurrent`; `punch` is the error of `Fallocate`, which changes nothing when
-- it fails.
pub release_one : ShmDisk → ShmExtent → Option IoError → Option ShmError × ShmDisk
release_one s p punch =
    if leb p.end p.start
    then (none, s)
    else if s.closed
    then (some shm_closed, s)
    else if not (covers_generation p s.extents)
    then (none, s)
    else elim punch [
      | some e ↦ (some (os_error e), s)
      | none ↦ (
        none,
        record s {
          content = punch_bytes s.content p.start p.end;
          extents = remove_range_generation p.start p.end p.gen s.extents;
        },
      )
    ]

-- The loop of `ReleaseIfCurrent` from its `i`-th round on; `punch i` is the error of that round's
-- `Fallocate`.
release_from :
    ℕ
    → (ℕ → Option IoError)
    → Option ShmError
    → ShmDisk
    → List ShmExtent
    → Option ShmError × ShmDisk
unfolding release_one
release_from i punch first s [] = (first, s)
release_from i punch first s (p ∷ ps) =
    let (e, s') = release_one s p (punch i) in
    release_from (i + 1) punch (first_error first e) s' ps

pub release_if_current : ShmDisk → List ShmExtent → (ℕ → Option IoError) → Option ShmError × ShmDisk
unfolding release_from
release_if_current s planned punch = release_from 0 punch none s planned

-- `Close`; the errors of closing and of removing the file are given, the latter already `none`
-- when the file was gone.
pub close : ShmDisk → Option IoError → Option IoError → Option ShmError × ShmDisk
close s closing removing = if s.closed then (none, s) else (
  elim closing [
    | some e ↦ some (os_error e)
    | none ↦ elim removing [ some e ↦ some (os_error e) | none ↦ none ]
  ],
  record s { closed = true; extents = [] },
)
