-- ===== src/System/Plain.antt =====
-- Runs in which nothing is given up: every request is taken, no write is MPEG-TS, nothing is punched.
use tssniff.Prelude.{
  ℕ, ◌+◌, ◌^◌, ◌≤◌, ◌<◌, ◌≡◌, ◌⊎◌, refl, ◌∙◌, ap, subst, Bool, true, false, List, [], ◌++◌, ◌∷◌,
  Option, none, some, arith, length, leb, pos, inl, inr, Bool-cases,
}
use tssniff.Events.{WriteEvent}
use tssniff.Shm.Io.{Io, IoError, Bytes, eof, write_bytes, ok}
use tssniff.Shm.Disk.{tabulate}
use tssniff.Shm.Disk.Read.{full_read, tabulate_same}
use tssniff.Fuse.{Reply, done, failed, read, write}
use tssniff.System.{
  start_system, System, Promise, Action, request, settle, punch, act, act_all, promise, promise_all,
  promise_request, promise_settle,
}
use tssniff.System.Start.{start_system-IsStarted, node_size-act_all}
use tssniff.Journal.{Ring, WriteRecord}
use tssniff.Ntfs.Volume.{Ntfs}
use tssniff.System.Reader.{IsFresh, untouched, read-act_all}

-- A file to which the requests are written, one after the other.
pub written_all : List Action → Bytes → Bytes
written_all [] file = file
written_all (request bytes start io ∷ acts) file = written_all acts (write_bytes file start bytes)
written_all (settle mpegts io fault ∷ acts) file = written_all acts file
written_all (punch req fault ∷ acts) file = written_all acts file

abbrev pub ArePlain : List Action → System → Type 0
ArePlain [] s = Unit {0}
ArePlain (request bytes start io ∷ acts) s =
    ((n : ℕ) × ((write s.node bytes (pos start) io).0 ≡ done n))
    × ArePlain acts (act (request bytes start io) s)
ArePlain (settle mpegts io fault ∷ acts) s =
    (mpegts ≡ false) × ArePlain acts (act (settle mpegts io fault) s)
ArePlain (punch req fault ∷ acts) s = true ≡ false

-- Everything stays known, and the bytes are those of the file.
abbrev IsFile : Bytes → Promise → Type 0
IsFile file p = ((x : ℕ) → p.known x ≡ true) × ((x : ℕ) → p.byte x ≡ file x)

promise_request-IsFile :
    (r : Reply ℕ) (bytes : List ℕ) (start : ℕ) (p : Promise) (file : Bytes) {n : ℕ}
    → r ≡ done n
    → IsFile file p
    → IsFile (write_bytes file start bytes) (promise_request r bytes start p)
unfolding promise_request write_bytes
promise_request-IsFile (done m) bytes start p file e (k, b) =
    (λ x. let known = k x in ground (arith, known), λ x. let same = b x in ground (arith, same))
promise_request-IsFile (failed x) bytes start p file e v = cc

promise_settle-IsFile :
    (queue : List WriteEvent) (mpegts : Bool) (io : Io) (p : Promise) (file : Bytes)
    → mpegts ≡ false
    → IsFile file p
    → IsFile file (promise_settle queue mpegts io p)
unfolding promise_settle
promise_settle-IsFile [] mpegts io p file e v = v
promise_settle-IsFile (ev ∷ evs) true io p file e v = cc
promise_settle-IsFile (ev ∷ evs) false io p file e v =
    elim (Bool-cases (leb (length ev.bytes) io.count)) [ inl t ↦ rw t v | inr t ↦ rw t v ]

promise_all-IsFile :
    (acts : List Action) (s : System) (p : Promise) (file : Bytes)
    → ArePlain acts s
    → IsFile file p
    → IsFile (written_all acts file) (promise_all acts s p)
unfolding promise_all promise written_all
promise_all-IsFile [] s p file plain v = v
promise_all-IsFile (request bytes start io ∷ acts) s p file ((n, e), plain) v =
    promise_all-IsFile acts (act (request bytes start io) s) _ (write_bytes file start bytes) plain
      (promise_request-IsFile (write s.node bytes (pos start) io).0 bytes start p file e v)
promise_all-IsFile (settle mpegts io fault ∷ acts) s p file (e, plain) v =
    promise_all-IsFile acts (act (settle mpegts io fault) s) _ file plain
      (promise_settle-IsFile s.node.submitted mpegts io p file e v)
promise_all-IsFile (punch req fault ∷ acts) s p file plain v = cc

-- From a fresh start, a read gives the file of the requests.
read-plain :
    (s : System) (acts between : List Action) (base_io : Io) (len off : ℕ)
    → IsFresh s
    → ArePlain (acts ++ between) s
    → s.node.shm.next_gen + length (acts ++ between) < 2 ^ 64
    → 0 < len
    → let image = (act_all acts s).disk in
      let s' = act_all (acts ++ between) s in
      off + len ≤ s'.node.size
      → off + len ≤ s.node.shm.size
      → (base_io.error ≡ none) ⊎ (base_io.error ≡ some eof)
      → ((i : ℕ) → base_io.count ≤ i → image (off + i) ≡ 0)
      → ((i : ℕ) → i < len → image (off + i) ≡ s'.disk (off + i))
      → read image base_io full_read s'.node len (pos off)
        ≡ done (tabulate len 0 (λ i. written_all (acts ++ between) s.disk (off + i)))
read-plain s acts between base_io len off fresh plain w p a b e zeros same =
    let all = acts ++ between in
    let (known, byte) =
      promise_all-IsFile all s (untouched s) s.disk plain (λ x. refl, λ x. refl) in
    read-act_all s acts between base_io len off fresh w p a b e zeros same (λ i h. known (off + i))
    ∙ ap done (
        tabulate_same len 0 (λ i. (promise_all all s (untouched s)).byte (off + i))
          (λ i. written_all all s.disk (off + i)) (λ j h. byte (off + j)))

-- When NewSHMDisk and the mount succeed on an image below 2 ^ 64 bytes, and after any sequence,
-- of fewer than 2 ^ 64 - 1 steps, of requests to write that are all taken and of writes that
-- the writer takes from the queue, none of them MPEG-TS, with any results of the writer's
-- calls: a nonempty `Read` within the image, whose reads of the overlay are complete and whose
-- read of the image ends without an error or with EOF (the image being zero past what was
-- read), returns the bytes of the first image with the requests of the whole sequence written
-- into it one after the other. The read of the image, which comes before the lock, may be any
-- number of the steps earlier than the scan of the overlay at the end, as long as the image
-- still has the same bytes of the range then.
pub read-written_all :
    (image : Bytes) (size : ℕ) (create truncate mounting : Option IoError) (ntfs : Ntfs)
    (recent : Ring WriteRecord) (acts between : List Action) (base_io : Io) (len off : ℕ)
    {s : System}
    → size < 2 ^ 64
    → start_system image size create truncate mounting ntfs recent ≡ ok s
    → ArePlain (acts ++ between) s
    → length (acts ++ between) + 1 < 2 ^ 64
    → 0 < len
    → off + len ≤ size
    → (base_io.error ≡ none) ⊎ (base_io.error ≡ some eof)
    → let before = (act_all acts s).disk in
      let s' = act_all (acts ++ between) s in
      ((i : ℕ) → base_io.count ≤ i → before (off + i) ≡ 0)
      → ((i : ℕ) → i < len → before (off + i) ≡ s'.disk (off + i))
      → read before base_io full_read s'.node len (pos off)
        ≡ done (tabulate len 0 (λ i. written_all (acts ++ between) image (off + i)))
read-written_all image size create truncate mounting ntfs recent acts between base_io len off {s}
      small started plain few p inside e zeros unchanged =
    let (fresh, gen, file, disk, same) =
      start_system-IsStarted image size create truncate mounting ntfs recent small started in
    let all = acts ++ between in
    let s' = act_all all s in
    subst
      (λ f.
        read (act_all acts s).disk base_io full_read s'.node len (pos off)
        ≡ done (tabulate len 0 (λ i. written_all all f (off + i))))
      same
      (read-plain s acts between base_io len off fresh plain (omega (arith, gen, few)) p
        (omega (arith, file, inside, node_size-act_all all s)) (omega (arith, disk, inside)) e zeros
        unchanged)
