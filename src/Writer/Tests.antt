-- ===== src/Writer/Tests.antt =====
-- Runs of the writer on an empty image.
use tssniff.Prelude.{
  ◌≤◌, ◌<◌, ◌-◌, ◌==◌, get_or, Bool-cases, inl, inr, ℕ, ◌≡◌, refl, false, [], ◌∷◌, none, arith,
  replicate, take, if◌then◌else◌,
}
use tssniff.Events.{ObservedWrite, PunchRequest}
use tssniff.Shm.Io.{Io}
use tssniff.Journal.{WriteRecord, no_record, add}
use tssniff.Journal.History.{Holds, add-Holds}
use tssniff.Journal.Newer.{HasNewer}
use tssniff.Shm.Disk.{ShmDisk}
use tssniff.Shm.Disk.Valid.{IsValid, Owned}
use tssniff.Shm.Disk.View.{view}
use tssniff.Writer.Reader.{IsStaged, view-process_write}
use tssniff.Writer.{Writer, process_write, process_punch}
use tssniff.Writer.Disk.{process_punch-disk}

abbrev idle : Writer
idle = record {
  disk = λ x. 5;
  shm = record { size = 64; content = λ x. 0; next_gen = 1; closed = false; extents = [] };
  recent = record { items = replicate 4 no_record; head = 0; count = 0 };
}

abbrev two_bytes : ObservedWrite
two_bytes = record {
  event = record {
    seq = 1;
    offset = 8;
    bytes = 7 ∷ 9 ∷ [];
    staged = record { start = 8; end = 10; gen = 1 };
    touches_mft = false;
  };
  mpegts = false;
  captures = [];
}

abbrev done : Io
done = record { count = 2; error = none }

abbrev punch_at : ℕ → PunchRequest
punch_at n = record { capture_seq = n; start = 9; end = 12 }

idle-Holds : Holds no_record idle.recent []
idle-Holds = record { placed = omega arith; counted = refl; latest = λ i k. absurd (omega arith) }

-- A write of the bytes 8 and 9 behind the capture of the punch.
abbrev newest : WriteRecord
newest = record { seq = 4; start = 8; end = 10 }

abbrev behind : Writer
behind = record idle { recent = add idle.recent newest }

process_punch-disk_example :
    let y = (process_punch behind (punch_at 3) none).disk 9 in
    let newer = HasNewer 3 9 12 (take behind.recent.count (newest ∷ [])) in
    (newer → y ≡ 5) × (¬ newer → y ≡ 0)
process_punch-disk_example =
    process_punch-disk behind (newest ∷ []) (punch_at 3) none 9
      (add-Holds no_record idle.recent [] newest idle-Holds)

abbrev overlay : ShmDisk
overlay = record {
  size = 64;
  content = λ x. if x == 9 then 9 else 7;
  next_gen = 2;
  closed = false;
  extents = record { start = 8; end = 10; gen = 1 } ∷ [];
}

abbrev staging : Writer
staging = record idle { shm = overlay }

overlay-Owned : Owned overlay
overlay-Owned x g e = (ground arith, ground arith)

overlay-IsValid : IsValid overlay
overlay-IsValid = record {
  ordered = (omega arith, omega arith, tt);
  owned = overlay-Owned;
  small = omega arith;
  gone = λ c. cc;
}

overlay-copied : (x : ℕ) → 8 ≤ x → x < 10 → overlay.content x ≡ get_or (7 ∷ 9 ∷ []) (x - 8) 0
overlay-copied x a b = elim (Bool-cases (x == 9)) [
  | inl e ↦ let k : x ≡ 9 = ground arith in rw k refl
  | inr e ↦ let k : x ≡ 8 = ground arith in rw k refl
]

overlay-IsStaged : IsStaged overlay two_bytes.event
overlay-IsStaged = record {
  begins = refl;
  ends = refl;
  owned = λ x a b e. absurd (ground arith);
  copied = λ x a b e. overlay-copied x a b;
}

view-process_write_example :
    view
      (process_write staging two_bytes done none).disk
      (process_write staging two_bytes done none).shm
      9
    ≡ 9
view-process_write_example =
    view-process_write staging two_bytes none 9 overlay-IsValid overlay-IsStaged refl
