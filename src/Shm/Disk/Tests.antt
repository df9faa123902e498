-- ===== src/Shm/Disk/Tests.antt =====
-- Runs of the overlay on a volume of 64 bytes with two staged extents.
use tssniff.Prelude.{◌≡◌, inr, refl, false, List, [], ◌∷◌, none, some, arith, pos}
use tssniff.Shm.Io.{eof, Io, ok}
use tssniff.Shm.Extents.{ShmExtent}
use tssniff.Shm.Extents.Owner.{IsOrdered}
use tssniff.Shm.Disk.{ShmDisk, stage_write, read_at, tabulate, release_if_current}
use tssniff.Shm.Disk.Valid.{IsValid, Owned, stage_write-IsValid}
use tssniff.Shm.Disk.View.{view, view-stage_write}
use tssniff.Shm.Disk.Read.{full_read, read_at-view}
use tssniff.Shm.Disk.Release.{release_after_overwrite}

abbrev first : ShmExtent
first = record { start = 10; end = 20; gen = 1 }

abbrev second : ShmExtent
second = record { start = 30; end = 40; gen = 2 }

abbrev extents : List ShmExtent
extents = first ∷ second ∷ []

abbrev disk : ShmDisk
disk = record { size = 64; content = λ x. x; next_gen = 3; closed = false; extents = extents }

extents-IsOrdered : IsOrdered 0 extents
extents-IsOrdered = (omega arith, omega arith, (omega arith, omega arith, tt))

disk-Owned : Owned disk
disk-Owned x g e = (ground arith, ground arith)

disk-IsValid : IsValid disk
disk-IsValid = record {
  ordered = extents-IsOrdered;
  owned = disk-Owned;
  small = omega arith;
  gone = λ c. cc;
}

abbrev two_written : Io
two_written = record { count = 2; error = none }

abbrev inner : ShmExtent
inner = record { start = 12; end = 14; gen = 3 }

staged : (stage_write disk (7 ∷ 8 ∷ []) 12 two_written).0 ≡ ok inner
unfolding stage_write
staged = refl

stage_write-IsValid_example : IsValid (stage_write disk (7 ∷ 8 ∷ []) 12 two_written).1
stage_write-IsValid_example =
    stage_write-IsValid disk (7 ∷ 8 ∷ []) 12 two_written disk-IsValid (omega arith)

view-stage_write_example : view (λ x. 0) (stage_write disk (7 ∷ 8 ∷ []) 12 two_written).1 13 ≡ 8
view-stage_write_example =
    view-stage_write (λ x. 0) disk (7 ∷ 8 ∷ []) 12 two_written 13 disk-IsValid staged

read_at-view_example :
    read_at (λ x. 0) (record { count = 0; error = some eof }) full_read disk 4 (pos 8)
    ≡ ok (0 ∷ 0 ∷ 10 ∷ 11 ∷ [])
unfolding tabulate
read_at-view_example =
    read_at-view (λ x. 0) disk disk-IsValid (record { count = 0; error = some eof }) 4 8
      (omega arith) (omega arith) (inr refl) (λ i h. refl)

release_after_overwrite_example :
    release_if_current (stage_write disk (7 ∷ 8 ∷ []) 12 two_written).1 (first ∷ []) (λ i. none)
    ≡ (none, (stage_write disk (7 ∷ 8 ∷ []) 12 two_written).1)
release_after_overwrite_example =
    release_after_overwrite disk first inner (7 ∷ 8 ∷ []) 12 two_written (λ i. none) 13 disk-IsValid
      (omega arith) staged (omega arith) (omega arith) (omega arith) (omega arith)
