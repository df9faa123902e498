-- ===== src/System/Tests.antt =====
-- Two writes to a file of 64 bytes, and the writer.
use tssniff.Prelude.{
  ℕ, zero, suc, ◌+◌, ◌<◌, ◌≡◌, refl, inl, true, false, List, [], ◌∷◌, ◌++◌, none, arith, pos,
  replicate, ◌≤◌,
}
use tssniff.Journal.{no_record}
use tssniff.Shm.Io.{Io, write_bytes, ok}
use tssniff.Shm.Disk.{ShmDisk, new_shm_disk, tabulate, stage_write}
use tssniff.Shm.Disk.Valid.{IsValid}
use tssniff.Shm.Disk.Read.{full_read}
use tssniff.Ntfs.Observe.{bare_ntfs}
use tssniff.Fuse.{mount_disk_fs, done, read, write, staged, submit_write, write_reply}
use tssniff.Writer.{process_write, release_staged}
use tssniff.System.{
  start_system, System, Action, request, settle, act, act_all, settle_next, writer_of, promise,
  promise_all, promise_request, promise_settle, give_up, covered,
}
use tssniff.System.Plain.{written_all, ArePlain, read-written_all}
use tssniff.System.Reader.{IsFresh, untouched, read-act_all, disk-act_all}

abbrev overlay : ShmDisk
overlay = record { size = 64; content = λ x. 0; next_gen = 1; closed = false; extents = [] }

overlay-IsValid : IsValid overlay
overlay-IsValid = record {
  ordered = tt;
  owned = λ x g e. cc;
  small = omega arith;
  gone = λ c. refl;
}

abbrev system : System
system = record {
  node = record {
    size = 64;
    seq = 0;
    shm = overlay;
    ntfs =
        bare_ntfs (record { offset = 0; size = 0; kind = 7 })
          (record {
            bytes_per_sector = 512;
            cluster_size = 512;
            total_clusters = 0;
            mft_record_size = 512;
            boot_mft_lcn = 0;
          });
    closing = false;
    submitted = [];
  };
  disk = λ x. 0;
  recent = record { items = replicate 8 no_record; head = 0; count = 0 };
}

system-IsFresh : IsFresh system
system-IsFresh = (overlay-IsValid, refl, refl)

abbrev two : Io
two = record { count = 2; error = none }

-- The first write is MPEG-TS, the second stays in the overlay; it comes, and the first is
-- settled, behind the read of the image.
abbrev first_request : List Action
first_request = request (7 ∷ 8 ∷ []) 12 two ∷ []

abbrev behind_image : List Action
behind_image = request (9 ∷ 9 ∷ []) 20 two ∷ settle true two none ∷ []

abbrev lost_and_kept : List Action
lost_and_kept = first_request ++ behind_image

file_size : (act_all lost_and_kept system).node.size ≡ 64
unfolding act_all act write staged submit_write write_reply stage_write settle_next process_write
    release_staged writer_of
file_size = refl

image_there : (i : ℕ) → 2 ≤ i → (act_all first_request system).disk (20 + i) ≡ 0
unfolding act_all act write staged submit_write write_reply stage_write settle_next process_write
    release_staged writer_of
image_there i h = refl

image_same :
    (i : ℕ)
    → i < 2
    → (act_all first_request system).disk (20 + i) ≡ (act_all lost_and_kept system).disk (20 + i)
unfolding act_all act write staged submit_write write_reply stage_write settle_next process_write
    release_staged writer_of
image_same i h = refl

known_there :
    (i : ℕ) → i < 2 → (promise_all lost_and_kept system (untouched system)).known (20 + i) ≡ true
unfolding promise_all promise promise_request promise_settle give_up covered act write staged
    submit_write write_reply stage_write
known_there zero h = refl
known_there (suc zero) h = refl
known_there (suc (suc i)) h = absurd (omega (arith, h))

read-act_all_example :
    read
      (act_all first_request system).disk
      two
      full_read
      (act_all lost_and_kept system).node
      2
      (pos 20)
    ≡ done (tabulate 2 0 (λ i. (promise_all lost_and_kept system (untouched system)).byte (20 + i)))
read-act_all_example =
    read-act_all system first_request behind_image two 2 20 system-IsFresh (omega arith)
      (omega arith) (omega (arith, file_size)) (omega arith) (inl refl) image_there image_same
      known_there

-- The write reaches the image.
abbrev flushed : List Action
flushed = request (7 ∷ 8 ∷ []) 12 two ∷ settle false two none ∷ []

drained : (act_all flushed system).node.submitted ≡ []
unfolding act_all act write staged submit_write write_reply stage_write settle_next process_write
    release_staged writer_of
drained = refl

stored_there : (promise_all flushed system (untouched system)).kept 12 ≡ true
unfolding promise_all promise promise_request promise_settle give_up covered act write staged
    submit_write write_reply stage_write
stored_there = refl

disk-act_all_example :
    (act_all flushed system).disk 12 ≡ (promise_all flushed system (untouched system)).byte 12
disk-act_all_example =
    disk-act_all system flushed system-IsFresh (omega arith) 12 drained stored_there

-- The third write replaces a byte of the first, which the writer takes; it takes the second behind
-- the read of the image.
abbrev settled : List Action
settled =
    request (7 ∷ 8 ∷ []) 12 two
    ∷ request (5 ∷ 6 ∷ []) 30 two
    ∷ request (9 ∷ []) 13 (record { count = 1; error = none })
    ∷ settle false two none
    ∷ []

abbrev settled_behind : List Action
settled_behind = settle false two none ∷ []

abbrev replaced : List Action
replaced = settled ++ settled_behind

started : start_system (λ x. 0) 64 none none none system.node.ntfs system.recent ≡ ok system
unfolding start_system new_shm_disk mount_disk_fs
started = refl

replaced-ArePlain : ArePlain replaced system
unfolding act write staged submit_write write_reply stage_write
replaced-ArePlain = ((2, refl), ((2, refl), ((1, refl), (refl, (refl, tt)))))

replaced_image : (i : ℕ) → 64 ≤ i → (act_all settled system).disk (12 + i) ≡ 0
unfolding act_all act write staged submit_write write_reply stage_write settle_next process_write
    release_staged writer_of write_bytes
replaced_image i h = ground (arith, h)

replaced_same :
    (i : ℕ)
    → i < 4
    → (act_all settled system).disk (12 + i) ≡ (act_all replaced system).disk (12 + i)
unfolding act_all act write staged submit_write write_reply stage_write settle_next process_write
    release_staged writer_of write_bytes
replaced_same i h = ground (arith, h)

read-written_all_example :
    read
      (act_all settled system).disk
      (record { count = 64; error = none })
      full_read
      (act_all replaced system).node
      4
      (pos 12)
    ≡ done (tabulate 4 0 (λ i. written_all replaced (λ x. 0) (12 + i)))
read-written_all_example =
    read-written_all (λ x. 0) 64 none none none system.node.ntfs system.recent settled
      settled_behind (record { count = 64; error = none }) 4 12 (omega arith) started
      replaced-ArePlain (omega arith) (omega arith) (omega arith) (inl refl) replaced_image
      replaced_same
