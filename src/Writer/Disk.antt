-- ===== src/Writer/Disk.antt =====
-- What the writer does to the image, byte by byte.
use tssniff.Prelude.{
  ℕ, ◌≡◌, refl, ◌&&◌, List, [], ◌∷◌, Option, none, some, arith, ltb, leb, if◌then◌else◌, add_u64,
  length, take, inl, inr, Bool-cases,
}
use tssniff.Events.{WriteEvent, ObservedWrite, PunchRequest}
use tssniff.Journal.{Ring, WriteRecord, no_record, remember_write, add, has_newer_overlap}
use tssniff.Journal.History.{Holds, add-Holds}
use tssniff.Journal.Newer.{HasNewer, has_newer_overlap-HasNewer}
use tssniff.Shm.Io.{IoError, Io, write_bytes, punch_bytes}
use tssniff.Writer.{Writer, release_staged, process_write, process_punch}

-- A write that the sniffer took for MPEG-TS does not change the image; any other changes exactly
-- the bytes that the call reports as written, and is remembered.
pub process_write-disk :
    (w : Writer) (ev : ObservedWrite) (io : Io) (punch : Option IoError) (x : ℕ)
    → let write = ev.event in
      let w' = process_write w ev io punch in
      (w'.disk x ≡ (
        if ev.mpegts
        then w.disk x
        else write_bytes w.disk write.offset (take io.count write.bytes) x))
      × (w'.recent ≡ (
          if ev.mpegts
          then w.recent
          else remember_write w.recent write.seq write.offset
              (add_u64 write.offset (length write.bytes))))
unfolding process_write release_staged
process_write-disk w ev io punch x = ground arith

-- A punch leaves the image as it is if one of the writes that the writer's ring still holds has
-- a greater number than the capture, begins before the end of the punch and ends behind its
-- start. If there is no such write, the punch zeroes its range and nothing else, and it changes
-- nothing if the call fails. The ring is that of the given history.
pub process_punch-disk :
    (w : Writer) (hist : List WriteRecord) (req : PunchRequest) (fallocate : Option IoError) (x : ℕ)
    → Holds no_record w.recent hist
    → let y = (process_punch w req fallocate).disk x in
      let newer = HasNewer req.capture_seq req.start req.end (take w.recent.count hist) in
      (newer → y ≡ w.disk x)
      × (¬ newer
          → y ≡ elim fallocate [
            | some e ↦ w.disk x
            | none ↦ if leb req.start x && ltb x req.end then 0 else w.disk x
          ])
unfolding process_punch punch_bytes
process_punch-disk w hist req fallocate x v =
    let seq = req.capture_seq in
    let (to, from) = has_newer_overlap-HasNewer w.recent hist v seq req.start req.end in
    elim (Bool-cases (has_newer_overlap w.recent seq req.start req.end)) [
      | inl e ↦ (λ h. ground arith, λ h. absurd (h (to e)))
      | inr e ↦ (λ h. cc (from h, e), λ h. ground arith)
    ]

-- The record that the writer keeps of a write.
abbrev pub record_of : WriteEvent → WriteRecord
record_of e = record { seq = e.seq; start = e.offset; end = add_u64 e.offset (length e.bytes) }

remember_write_lem :
    (r : Ring WriteRecord) (e : WriteEvent)
    → remember_write r e.seq e.offset (add_u64 e.offset (length e.bytes)) ≡ add r (record_of e)
unfolding remember_write
remember_write_lem r e = refl

-- The writes that the writer handles, one after the other, with what the calls return.
abbrev pub Job : Type 0
Job = ObservedWrite × Io × Option IoError

pub process_all : Writer → List Job → Writer
process_all w [] = w
process_all w ((ev, io, punch) ∷ js) = process_all (process_write w ev io punch) js

-- Their records, newest first, in front of the older ones.
abbrev pub history : List Job → List WriteRecord → List WriteRecord
history [] hist = hist
history ((ev, io, punch) ∷ js) hist =
    history js (if ev.mpegts then hist else record_of ev.event ∷ hist)

process_write-Holds :
    (w : Writer) (hist : List WriteRecord) (ev : ObservedWrite) (io : Io) (punch : Option IoError)
    → Holds no_record w.recent hist
    → Holds no_record
        (process_write w ev io punch).recent
        (if ev.mpegts then hist else record_of ev.event ∷ hist)
process_write-Holds w hist ev io punch v =
    let r = (process_write-disk w ev io punch 0).1 in
    elim (Bool-cases ev.mpegts) [
      | inl m ↦ rw (r, m) v
      | inr m ↦
          rw (r, m, remember_write_lem w.recent ev.event)
            (add-Holds no_record w.recent hist (record_of ev.event) v)
    ]

-- Whatever the writes are and whatever the calls return, the ring of recent writes holds the
-- latest writes that were not MPEG-TS, if it did so before.
pub process_all-Holds :
    (w : Writer) (hist : List WriteRecord) (js : List Job)
    → Holds no_record w.recent hist
    → Holds no_record (process_all w js).recent (history js hist)
unfolding process_all
process_all-Holds w hist [] v = v
process_all-Holds w hist ((ev, io, punch) ∷ js) v =
    process_all-Holds (process_write w ev io punch) _ js (process_write-Holds w hist ev io punch v)
