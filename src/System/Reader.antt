-- ===== src/System/Reader.antt =====
-- What the mount and the image give back in the end.
use tssniff.Prelude.{
  ℕ, ◌+◌, ◌^◌, ◌≤◌, ◌<◌, ◌≡◌, ◌⊎◌, refl, sym, ◌∙◌, ap, true, List, [], ◌++◌, none, some, arith,
  length, pos,
}
use tssniff.Shm.Io.{Io, Bytes, eof}
use tssniff.Shm.Disk.{ShmDisk, tabulate}
use tssniff.Shm.Disk.Valid.{IsValid}
use tssniff.Shm.Disk.View.{view}
use tssniff.Shm.Disk.Read.{full_read, tabulate_same}
use tssniff.Fuse.{done, read}
use tssniff.Fuse.Reads.{read-view}
use tssniff.System.{System, Promise, Action, act_all, promise_all}
use tssniff.System.Holds.{Holds, replay}
use tssniff.System.Run.{Holds-act_all, size-act_all}

-- Before the first request, every byte of the image is promised.
abbrev pub untouched : System → Promise
untouched s = record { byte = s.disk; known = λ x. true; kept = λ x. true }

-- An overlay without extents and a queue without writes.
abbrev pub IsFresh : System → Type 0
IsFresh s = IsValid s.node.shm × (s.node.shm.extents ≡ []) × (s.node.submitted ≡ [])

module _ (s : System) (acts : List Action) (fresh : IsFresh s)
    (w : s.node.shm.next_gen + length acts < 2 ^ 64) where
  untouched-Holds : Holds s (untouched s)
  untouched-Holds = record {
    valid = fresh.0;
    pending = rw fresh.2 tt;
    visible = λ x k. rw fresh.1 refl;
    stored = λ x k. rw fresh.2 refl;
  }

  run-Holds : Holds (act_all acts s) (promise_all acts s (untouched s))
  run-Holds = Holds-act_all acts s (untouched s) untouched-Holds w

  -- In such a run, once the queue is empty, the image has at each kept byte that of the last
  -- request to it that was taken, or else of the first image. A byte is kept until an MPEG-TS
  -- write of it or one that the image does not take whole leaves the queue, or a punch of it is
  -- asked for, while no write in the queue has it; and again once a request to it is taken.
  pub disk-act_all :
      (x : ℕ)
      → let s' = act_all acts s in
        let p = promise_all acts s (untouched s) in
        s'.node.submitted ≡ [] → p.kept x ≡ true → s'.disk x ≡ p.byte x
  disk-act_all x drained k =
      let h = run-Holds in ap (λ q. replay (act_all acts s).disk q x) (sym drained) ∙ h.stored x k

view-same : (d e : Bytes) (shm : ShmDisk) (x : ℕ) → d x ≡ e x → view d shm x ≡ view e shm x
view-same d e shm x h = ground (arith, h)

-- From a valid overlay without extents and a queue without writes, while the generation counter
-- cannot wrap, and after any sequence of requests to write, of writes that the writer takes
-- from the queue, MPEG-TS or not, and of punches, with any results of their calls: a nonempty
-- `Read` within the file and the volume, of known bytes, whose reads of the overlay are
-- complete and whose read of the image ends without an error or with EOF (the image being zero
-- past what was read), returns for each byte that of the last request to it that was taken, or
-- else of the first image. The read of the image, which comes before the lock, may be any
-- number of the steps earlier than the scan of the overlay at the end, as long as the image
-- still has the same bytes of the range then. A byte is known until a request to it is refused,
-- or an MPEG-TS write of it is taken from the queue or a punch of it is asked for while no
-- write in the queue has it; and again once a request to it is taken.
pub read-act_all :
    (s : System) (acts between : List Action) (base_io : Io) (len off : ℕ)
    → IsFresh s
    → s.node.shm.next_gen + length (acts ++ between) < 2 ^ 64
    → 0 < len
    → let image = (act_all acts s).disk in
      let s' = act_all (acts ++ between) s in
      let p = promise_all (acts ++ between) s (untouched s) in
      off + len ≤ s'.node.size
      → off + len ≤ s.node.shm.size
      → (base_io.error ≡ none) ⊎ (base_io.error ≡ some eof)
      → ((i : ℕ) → base_io.count ≤ i → image (off + i) ≡ 0)
      → ((i : ℕ) → i < len → image (off + i) ≡ s'.disk (off + i))
      → ((i : ℕ) → i < len → p.known (off + i) ≡ true)
      → read image base_io full_read s'.node len (pos off)
        ≡ done (tabulate len 0 (λ i. p.byte (off + i)))
read-act_all s acts between base_io len off fresh w p a b e zeros same known =
    let all = acts ++ between in
    let image = (act_all acts s).disk in
    let s' = act_all all s in
    let h = run-Holds s all fresh w in
    read-view image s'.node base_io len off h.valid p a
      (omega (arith, b, size-act_all all s (untouched s) (untouched-Holds s all fresh w) w)) e zeros
    ∙ ap done (
        tabulate_same len 0 (λ i. view image s'.node.shm (off + i))
          (λ i. (promise_all all s (untouched s)).byte (off + i))
          (λ j k.
            let i : j < len = omega (arith, k) in
            view-same image s'.disk s'.node.shm (off + j) (same j i)
            ∙ h.visible (off + j) (known j i)))
