-- ===== src/Main/Tests.antt =====
-- A run in which the set-up of the gadget fails.
use tssniff.Prelude.{refl, true, false}
use tssniff.Main.{
  open_image, stat_image, check_regular, find_partition, new_overlay, new_tracker, start_hub,
  make_mount, mount_disk, start_writer, start_sniffer, start_reconciler, start_pipeline, listen,
  serve, set_up_gadget, wait_signal, tear_down_gadget, unmount, close_writes, wait_sniffer,
  wait_reconciler, close_punches, wait_pipeline, wait_writer, sync_backing, shut_http, close_hub,
  close_overlay, close_image, Faults, main,
}
use tssniff.Main.Order.{EndsOver, follow, nothing_there, follow-main}

abbrev refused_gadget : Faults
refused_gadget open_image = false
refused_gadget stat_image = false
refused_gadget check_regular = false
refused_gadget find_partition = false
refused_gadget new_overlay = false
refused_gadget new_tracker = false
refused_gadget start_hub = false
refused_gadget make_mount = false
refused_gadget mount_disk = false
refused_gadget start_writer = false
refused_gadget start_sniffer = false
refused_gadget start_reconciler = false
refused_gadget start_pipeline = false
refused_gadget listen = false
refused_gadget serve = false
refused_gadget set_up_gadget = true
refused_gadget wait_signal = false
refused_gadget tear_down_gadget = false
refused_gadget unmount = false
refused_gadget close_writes = false
refused_gadget wait_sniffer = false
refused_gadget wait_reconciler = false
refused_gadget close_punches = false
refused_gadget wait_pipeline = false
refused_gadget wait_writer = false
refused_gadget sync_backing = false
refused_gadget shut_http = true
refused_gadget close_hub = false
refused_gadget close_overlay = false
refused_gadget close_image = false

follow-main_example :
    let (e, steps) = main false refused_gadget in
    EndsOver refused_gadget e (follow refused_gadget nothing_there steps)
follow-main_example = follow-main false refused_gadget refl
