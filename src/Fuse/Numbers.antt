-- ===== src/Fuse/Numbers.antt =====
-- The numbers that Write of fuse.go gives out, up to the sniffer.
use tssniff.Prelude.{
  ℕ, suc, ◌+◌, ◌-◌, ◌%◌, ◌^◌, ◌≤◌, ◌<◌, ◌≡◌, refl, subst, false, List, [], ◌∷◌, ◌++◌, arith, ltb,
  ◌==◌, length, ℤ, pos, negsuc, inl, inr, Bool-cases,
}
use tssniff.Shm.Io.{Io, Result, ok, err}
use tssniff.Shm.Extents.{ShmExtent}
use tssniff.Shm.Disk.{ShmDisk, stage_write}
use tssniff.Events.{WriteEvent}
use tssniff.Pipeline.{accept_all, start}
use tssniff.Pipeline.Arrival.{HasSeq, accept_all-sends}
use tssniff.Pipeline.Order.{Consecutive}
use tssniff.Pipeline.Room.{sends_few}
use tssniff.Pipeline.Handover.{sniffer_queue_depth}
use tssniff.Fuse.{DiskNode, submit_write, write_reply, staged, write}

-- One request to write.
pub record Request : Type 0 where
  pub bytes : List ℕ
  pub offset : ℤ
  pub io : Io

-- The node behind the requests, one after the other.
abbrev pub write_all : List Request → DiskNode → DiskNode
write_all [] d = d
write_all (r ∷ rs) d = write_all rs (write d r.bytes r.offset r.io).1

-- The pipeline takes writes, and was given one for each number so far, of which there are at most
-- `m`.
pub record IsNumbered (m : ℕ) (d : DiskNode) : Type 0 where
  pub is_open : d.closing ≡ false
  pub few : d.seq ≤ m
  pub each : (k : ℕ) → 1 ≤ k → k ≤ d.seq → HasSeq k d.submitted

HasSeq-left : (k : ℕ) (es fs : List WriteEvent) → HasSeq k es → HasSeq k (es ++ fs)
HasSeq-left k [] fs h = absurd h
HasSeq-left k (e ∷ es) fs (inl h) = inl h
HasSeq-left k (e ∷ es) fs (inr h) = inr (HasSeq-left k es fs h)

HasSeq-last :
    (k : ℕ) (es : List WriteEvent) (e : WriteEvent) → e.seq ≡ k → HasSeq k (es ++ (e ∷ []))
HasSeq-last k [] e h = inl h
HasSeq-last k (f ∷ es) e h = inr (HasSeq-last k es e h)

IsNumbered-mono : (m : ℕ) (d : DiskNode) → IsNumbered m d → IsNumbered (suc m) d
IsNumbered-mono m d v = record { is_open = v.is_open; few = omega (arith, v.few); each = v.each }

staged-IsNumbered :
    (m : ℕ) (d : DiskNode) (bytes : List ℕ) (off : ℕ) (r : Result ShmExtent × ShmDisk)
    → suc m < 2 ^ 64
    → IsNumbered m d
    → IsNumbered (suc m) (staged d bytes off r).1
unfolding staged submit_write write_reply
staged-IsNumbered m d bytes off (err e, shm) w v = record {
  is_open = v.is_open;
  few = omega (arith, v.few);
  each = v.each;
}
staged-IsNumbered m d bytes off (ok extent, shm) w v =
    let next : (d.seq + 1) % 2 ^ 64 ≡ d.seq + 1 = omega (arith, v.few) in
    rw (v.is_open, next)
      (record {
        is_open = refl;
        few = omega (arith, v.few);
        each = λ k a b. elim (Bool-cases (k == d.seq + 1)) [
          | inl e ↦ HasSeq-last k d.submitted _ (ground arith)
          | inr e ↦ HasSeq-left k d.submitted _ (v.each k a (ground arith))
        ];
      })

write-IsNumbered :
    (m : ℕ) (d : DiskNode) (bytes : List ℕ) (offset : ℤ) (io : Io)
    → suc m < 2 ^ 64
    → IsNumbered m d
    → IsNumbered (suc m) (write d bytes offset io).1
unfolding write
write-IsNumbered m d bytes (negsuc off) io w v = IsNumbered-mono m d v
write-IsNumbered m d bytes (pos off) io w v = elim (Bool-cases (length bytes == 0)) [
  | inl e ↦ rw e (IsNumbered-mono m d v)
  | inr e ↦ elim (Bool-cases (ltb (2 ^ 64 - 1 - off) (length bytes))) [
    | inl f ↦ rw (e, f) (IsNumbered-mono m d v)
    | inr f ↦ rw (e, f) (staged-IsNumbered m d bytes off (stage_write d.shm bytes off io) w v)
  ]
]

pub write_all-IsNumbered :
    (m : ℕ) (rs : List Request) (d : DiskNode)
    → m + length rs < 2 ^ 64
    → IsNumbered m d
    → IsNumbered (m + length rs) (write_all rs d)
write_all-IsNumbered m [] d w v = let e : m ≡ m + 0 = omega arith in subst (λ k. IsNumbered k d) e v
write_all-IsNumbered m (r ∷ rs) d w v =
    let e : suc m + length rs ≡ m + suc (length rs) = omega arith in
    let d' = (write d r.bytes r.offset r.io).1 in
    subst (λ k. IsNumbered k (write_all rs d')) e
      (write_all-IsNumbered (suc m) rs d' (omega arith)
        (write-IsNumbered m d r.bytes r.offset r.io (omega arith) v))

-- After any sequence of fewer than 2 ^ 64 calls of `Write` on a file that has given out no
-- number and whose pipeline is not closing, if a write of each number that was submitted
-- arrives at the dispatcher, in any order, and at most 1024 writes arrive in all, the
-- dispatcher sends to the sniffer the writes numbered 1, 2, 3 and so on without a gap, up to
-- the last number that was given out at least, and these are at most 1024, the depth of the
-- sniffer's channel, so that each send finds room even if the sniffer takes none.
pub write_all-sends :
    (rs : List Request) (d : DiskNode) (es : List WriteEvent)
    → length rs < 2 ^ 64
    → d.closing ≡ false
    → d.seq ≡ 0
    → ((k : ℕ) → HasSeq k (write_all rs d).submitted → HasSeq k es)
    → length es ≤ sniffer_queue_depth
    → let sent = accept_all es start in
      Consecutive 1 sent.to_sniffer sent.next_seq
      × ((write_all rs d).seq < sent.next_seq)
      × (length sent.to_sniffer ≤ sniffer_queue_depth)
write_all-sends rs d es w o z all room =
    let v =
      write_all-IsNumbered 0 rs d (omega (arith, w))
        (record { is_open = o; few = omega arith; each = λ k a b. absurd (omega arith) }) in
    let (inorder, far) = accept_all-sends (write_all rs d).seq es (λ k a b. all k (v.each k a b)) in
    (inorder, far, omega (arith, sends_few es, room))
