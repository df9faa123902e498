-- ===== src/Shm/Disk/Valid.antt =====
-- The invariant of `SHMDisk`, and that every method keeps it, whatever the file calls return.
use tssniff.Prelude.{
  ℕ, ◌+◌, ◌^◌, ◌≤◌, ◌<◌, ◌≡◌, refl, Bool, true, false, List, [], ◌∷◌, Option, none, some, arith,
  add_u64, length, take,
}
use tssniff.Shm.Io.{IoError, Io, Bytes, write_bytes, punch_bytes, ShmError, ok}
use tssniff.Shm.Extents.{ShmExtent, remove_range_generation}
use tssniff.Shm.Extents.Owner.{owner, IsOrdered}
use tssniff.Shm.Extents.Replace.{owner-replace_range, replace_range-IsOrdered}
use tssniff.Shm.Extents.Remove.{owner-remove_range_generation, remove_range_generation-IsOrdered}
use tssniff.Shm.Disk.{
  ShmDisk, new_shm_disk, commit, stage_write, release_one, release_from, release_if_current, close,
}

-- Each owned byte lies in the volume, and its generation was given out before.
abbrev pub Owned : ShmDisk → Type 0
Owned s = (x g : ℕ) → owner x s.extents ≡ some g → (x < s.size) × (g < s.next_gen)

pub record IsValid (s : ShmDisk) : Type 0 where
  pub ordered : IsOrdered 0 s.extents
  pub owned : Owned s
  pub small : s.size < 2 ^ 64
  pub gone : s.closed ≡ true → s.extents ≡ []

-- A new disk has the size that was asked for, no extents, and the first generation to give.
pub new_shm_disk-ok :
    (has_base : Bool) (size : ℕ) (create truncate : Option IoError) {s : ShmDisk}
    → new_shm_disk has_base size create truncate ≡ ok s
    → (s.extents ≡ []) × (s.size ≡ size) × (s.closed ≡ false) × (s.next_gen ≡ 1)
unfolding new_shm_disk
new_shm_disk-ok has_base size create truncate {s} e = ground arith

pub new_shm_disk-IsValid :
    (has_base : Bool) (size : ℕ) (create truncate : Option IoError) {s : ShmDisk}
    → size < 2 ^ 64
    → new_shm_disk has_base size create truncate ≡ ok s
    → IsValid s
new_shm_disk-IsValid has_base size create truncate {s} h e =
    let made = new_shm_disk-ok has_base size create truncate e in
    record {
      ordered = rw made.0 tt;
      owned = λ x g t. absurd (ground (arith, made.0, t));
      small = omega (arith, h, made.1);
      gone = λ _. made.0;
    }

commit-IsValid :
    (s : ShmDisk) (n : ShmExtent)
    → IsValid s
    → s.closed ≡ false
    → n.gen ≡ s.next_gen
    → s.next_gen + 1 < 2 ^ 64
    → n.start < n.end
    → n.end ≤ s.size
    → IsValid (commit s n).1
unfolding commit
commit-IsValid s n v c g w h k = record {
  ordered = replace_range-IsOrdered n s.extents h v.ordered;
  owned = λ x g' e. ground (arith, owner-replace_range n s.extents h v.ordered x, v.owned x g');
  small = v.small;
  gone = λ t. cc;
}

-- The file of the overlay matters to no part of the invariant.
content-IsValid : (s : ShmDisk) (c : Bytes) → IsValid s → IsValid (record s { content = c })
content-IsValid s c v = record {
  ordered = v.ordered;
  owned = v.owned;
  small = v.small;
  gone = v.gone;
}

-- The three ways in which `StageWrite` ends.
pub stage_write_cases :
    (P : ShmDisk → Type 0) (s : ShmDisk) (bytes : List ℕ) (off : ℕ) (io : Io)
    → let written : ShmDisk = record s {
      content = write_bytes s.content off (take io.count bytes);
    } in
      P s
      → P written
      → (0 < length bytes
          → off + length bytes ≤ s.size
          → s.closed ≡ false
          → P
              (commit written
                (record { start = off; end = add_u64 off (length bytes); gen = s.next_gen })).1)
      → P (stage_write s bytes off io).1
unfolding stage_write
stage_write_cases P s bytes off io same part done = ground arith

-- `StageWrite` keeps a disk valid on every outcome (extents sorted and disjoint, every owned
-- byte inside the volume and every owner an issued generation, no extents once closed), while
-- the generation counter does not wrap.
pub stage_write-IsValid :
    (s : ShmDisk) (bytes : List ℕ) (off : ℕ) (io : Io)
    → IsValid s
    → s.next_gen + 1 < 2 ^ 64
    → IsValid (stage_write s bytes off io).1
stage_write-IsValid s bytes off io v w =
    let w' = content-IsValid s (write_bytes s.content off (take io.count bytes)) v in
    stage_write_cases IsValid s bytes off io v w'
      (λ n k c. commit-IsValid _ _ w' c refl w (omega (arith, v.small)) (omega (arith, v.small)))

pub release_one-IsValid :
    (s : ShmDisk) (p : ShmExtent) (punch : Option IoError)
    → IsValid s
    → IsValid (release_one s p punch).1
unfolding release_one
release_one-IsValid s p punch v = ground (arith, kept)
  where
    kept :
        p.start ≤ p.end
        → s.closed ≡ false
        → IsValid (record s {
          content = punch_bytes s.content p.start p.end;
          extents = remove_range_generation p.start p.end p.gen s.extents;
        })
    kept h c = record {
      ordered = remove_range_generation-IsOrdered p.start p.end p.gen 0 s.extents h v.ordered;
      owned = λ x g e. ground (
        arith,
        owner-remove_range_generation p.start p.end p.gen 0 s.extents h v.ordered x,
        v.owned x g,
      );
      small = v.small;
      gone = λ t. cc;
    }

release_from-IsValid :
    (i : ℕ) (punch : ℕ → Option IoError) (first : Option ShmError) (s : ShmDisk)
    (ps : List ShmExtent)
    → IsValid s
    → IsValid (release_from i punch first s ps).1
unfolding release_from
release_from-IsValid i punch first s [] v = v
release_from-IsValid i punch first s (p ∷ ps) v =
    release_from-IsValid (i + 1) punch _ (release_one s p (punch i)).1 ps
      (release_one-IsValid s p (punch i) v)

-- `ReleaseIfCurrent` keeps a disk valid, whatever its calls return.
pub release_if_current-IsValid :
    (s : ShmDisk) (planned : List ShmExtent) (punch : ℕ → Option IoError)
    → IsValid s
    → IsValid (release_if_current s planned punch).1
unfolding release_if_current
release_if_current-IsValid s planned punch v = release_from-IsValid 0 punch none s planned v

pub close-IsValid :
    (s : ShmDisk) (closing removing : Option IoError)
    → IsValid s
    → IsValid (close s closing removing).1
unfolding close
close-IsValid s closing removing v = ground (arith, shut)
  where
    shut : IsValid (record s { closed = true; extents = [] })
    shut = record { ordered = tt; owned = λ x g e. cc; small = v.small; gone = λ _. refl }
