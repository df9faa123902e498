-- ===== src/Fuse/Tests.antt =====
-- Two writes to a file of 64 bytes.
use tssniff.Prelude.{◌≤◌, ◌<◌, length, refl, false, List, [], ◌∷◌, none, arith, pos}
use tssniff.Shm.Io.{Io, Bytes}
use tssniff.Shm.Disk.{ShmDisk}
use tssniff.Ntfs.Observe.{bare_ntfs}
use tssniff.Pipeline.{accept_all, start}
use tssniff.Pipeline.Order.{Consecutive}
use tssniff.Fuse.{DiskNode, write, staged, submit_write, write_reply}
use tssniff.Shm.Disk.{stage_write}
use tssniff.Pipeline.Handover.{sniffer_queue_depth}
use tssniff.Fuse.Numbers.{Request, write_all, write_all-sends}

abbrev image : Bytes
image x = 0

abbrev overlay : ShmDisk
overlay = record { size = 64; content = λ x. 0; next_gen = 1; closed = false; extents = [] }

abbrev file : DiskNode
file = record {
  size = 64;
  seq = 0;
  shm = overlay;
  ntfs =
      bare_ntfs (record { offset = 0; size = 0; kind = 7 })
        (record {
          bytes_per_sector = 512;
          cluster_size = 512;
          total_clusters = 0;
          mft_record_size = 512;
          boot_mft_lcn = 0;
        });
  closing = false;
  submitted = [];
}

abbrev two_written : Io
two_written = record { count = 2; error = none }

abbrev requests : List Request
requests =
    record { bytes = 7 ∷ 8 ∷ []; offset = pos 12; io = two_written }
    ∷ record { bytes = 9 ∷ 9 ∷ []; offset = pos 12; io = two_written }
    ∷ []

few_submitted : length (write_all requests file).submitted ≤ sniffer_queue_depth
unfolding write staged submit_write write_reply stage_write
few_submitted = omega arith

write_all-sends_example :
    let sent = accept_all (write_all requests file).submitted start in
    Consecutive 1 sent.to_sniffer sent.next_seq
    × ((write_all requests file).seq < sent.next_seq)
    × (length sent.to_sniffer ≤ sniffer_queue_depth)
write_all-sends_example =
    write_all-sends requests file (write_all requests file).submitted (omega arith) refl refl
      (λ k h. h) few_submitted
