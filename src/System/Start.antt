-- ===== src/System/Start.antt =====
-- The parts as main.go puts them together at the start.
use tssniff.Prelude.{
  ℕ, ◌≤◌, ◌<◌, ◌^◌, ◌≡◌, refl, ◌∙◌, sym, ap, subst, true, List, [], ◌∷◌, Option, arith,
}
use tssniff.Events.{WriteEvent}
use tssniff.Journal.{Ring, WriteRecord}
use tssniff.Shm.Io.{Bytes, IoError, Result, ok, err}
use tssniff.Shm.Disk.{ShmDisk, new_shm_disk}
use tssniff.Shm.Disk.Valid.{IsValid, new_shm_disk-ok, new_shm_disk-IsValid}
use tssniff.Ntfs.Volume.{Ntfs}
use tssniff.Fuse.{DiskNode, mount_disk_fs}
use tssniff.Fuse.Outcomes.{size-write, mount_disk_fs-ok}
use tssniff.System.{start_system, System, Action, request, settle, punch, settle_next, act, act_all}
use tssniff.System.Reader.{IsFresh}

-- What the start leaves.
abbrev pub IsStarted : Bytes → ℕ → System → Type 0
IsStarted image size s =
    IsFresh s
    × (s.node.shm.next_gen ≡ 1)
    × (s.node.size ≡ size)
    × (s.node.shm.size ≡ size)
    × (s.disk ≡ image)

mounted-IsStarted :
    (image : Bytes) (size : ℕ) (mounting : Option IoError) (ntfs : Ntfs) (recent : Ring WriteRecord)
    (shm : ShmDisk) (r : Result DiskNode) {s : System}
    → mount_disk_fs (ok size) mounting shm ntfs ≡ r
    → IsValid shm
    → (shm.extents ≡ []) × (shm.size ≡ size) × (shm.next_gen ≡ 1)
    → elim r as (λ _. Result System) [
      | err e ↦ err e
      | ok node ↦ ok (record { node = node; disk = image; recent = recent })
    ]
      ≡ ok s
    → IsStarted image size s
mounted-IsStarted image size mounting ntfs recent shm (err e) m v made h = cc
mounted-IsStarted image size mounting ntfs recent shm (ok d) {s} m v (es, sz, gen) h =
    let (a, b, c) = mount_disk_fs-ok size mounting shm ntfs m in
    let same : record { node = d; disk = image; recent = recent } ≡ s = cc in
    subst (IsStarted image size) same (
      (subst IsValid (sym b) v, ap (λ t. t.extents) b ∙ es, c),
      ap (λ t. t.next_gen) b ∙ gen,
      a,
      ap (λ t. t.size) b ∙ sz,
      refl,
    )

made-IsStarted :
    (image : Bytes) (size : ℕ) (mounting : Option IoError) (ntfs : Ntfs) (recent : Ring WriteRecord)
    (r : Result ShmDisk) (create truncate : Option IoError) {s : System}
    → size < 2 ^ 64
    → new_shm_disk true size create truncate ≡ r
    → elim r as (λ _. Result System) [
      | err e ↦ err e
      | ok shm ↦ elim (mount_disk_fs (ok size) mounting shm ntfs) [
        | err e ↦ err e
        | ok node ↦ ok (record { node = node; disk = image; recent = recent })
      ]
    ]
      ≡ ok s
    → IsStarted image size s
made-IsStarted image size mounting ntfs recent (err e) create truncate small m h = cc
made-IsStarted image size mounting ntfs recent (ok shm) create truncate small m h =
    let (es, sz, shut, gen) = new_shm_disk-ok true size create truncate m in
    mounted-IsStarted image size mounting ntfs recent shm
      (mount_disk_fs (ok size) mounting shm ntfs) refl
      (new_shm_disk-IsValid true size create truncate small m) (es, sz, gen) h

pub start_system-IsStarted :
    (image : Bytes) (size : ℕ) (create truncate mounting : Option IoError) (ntfs : Ntfs)
    (recent : Ring WriteRecord) {s : System}
    → size < 2 ^ 64
    → start_system image size create truncate mounting ntfs recent ≡ ok s
    → IsStarted image size s
unfolding start_system
start_system-IsStarted image size create truncate mounting ntfs recent small h =
    made-IsStarted image size mounting ntfs recent (new_shm_disk true size create truncate) create
      truncate small refl h

-- The file does not shrink.
size-act : (a : Action) (s : System) → s.node.size ≤ (act a s).node.size
unfolding act settle_next
size-act (request bytes start io) s = size-write s.node bytes start io
size-act (settle mpegts io fault) s = settled s.node.submitted
  where
    settled :
        (queue : List WriteEvent) → s.node.size ≤ (settle_next queue mpegts io fault s).node.size
    settled [] = omega arith
    settled (ev ∷ evs) = omega arith
size-act (punch req fault) s = omega arith

pub node_size-act_all : (acts : List Action) (s : System) → s.node.size ≤ (act_all acts s).node.size
unfolding act_all
node_size-act_all [] s = omega arith
node_size-act_all (a ∷ acts) s = omega (arith, size-act a s, node_size-act_all acts (act a s))
