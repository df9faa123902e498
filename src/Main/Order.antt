-- ===== src/Main/Order.antt =====
-- What the parts need of each other, and that main.go keeps to it.
use tssniff.Prelude.{◌≡◌, Bool, true, false, not, ◌&&◌, List, [], ◌∷◌, Option, none, some, arith}
use tssniff.Main.{
  Step, open_image, stat_image, check_regular, find_partition, new_overlay, new_tracker, start_hub,
  make_mount, mount_disk, start_writer, start_sniffer, start_reconciler, start_pipeline, listen,
  serve, set_up_gadget, wait_signal, tear_down_gadget, unmount, close_writes, wait_sniffer,
  wait_reconciler, close_punches, wait_pipeline, wait_writer, sync_backing, shut_http, close_hub,
  close_overlay, close_image, Exit, fatal, finished, Faults, check, go, shutdown, without_http,
  ends, with_gadget, main,
}

-- What is there. `overlay` is the open overlay, `file_left` its file where Close did not remove it;
-- `gadget` is a gadget that was not torn down, `gadget_left` what Teardown left of one.
pub record Life : Type 0 where
  pub overlay : Bool
  pub file_left : Bool
  pub mounted : Bool
  pub gadget : Bool
  pub gadget_left : Bool
  pub hub : Bool
  pub http : Bool
  pub writer : Bool
  pub sniffer : Bool
  pub reconciler : Bool
  pub pipeline : Bool
  pub writes : Bool
  pub punches : Bool

abbrev pub nothing_there : Life
nothing_there = record {
  overlay = false;
  file_left = false;
  mounted = false;
  gadget = false;
  gadget_left = false;
  hub = false;
  http = false;
  writer = false;
  sniffer = false;
  reconciler = false;
  pipeline = false;
  writes = false;
  punches = false;
}

-- When a step may be taken. A goroutine ends once what it receives from has ended: the sniffer
-- behind the writes, the reconciler behind the sniffer, the writer behind both sources.
allowed : Life → Step → Bool
allowed l open_image = true
allowed l stat_image = true
allowed l check_regular = true
allowed l find_partition = true
allowed l new_overlay = not l.overlay
allowed l new_tracker = l.overlay
allowed l start_hub = not l.hub
allowed l make_mount = true
allowed l mount_disk = l.overlay && not l.mounted
allowed l start_writer = l.overlay
allowed l start_sniffer = l.hub
allowed l start_reconciler = true
allowed l start_pipeline = l.writer && l.sniffer && l.reconciler
allowed l listen = true
allowed l serve = l.hub
allowed l set_up_gadget = l.mounted && l.pipeline
allowed l wait_signal = l.pipeline
allowed l tear_down_gadget = true
allowed l unmount = l.mounted && not l.gadget
allowed l close_writes = l.writes && not l.mounted
allowed l wait_sniffer = l.sniffer && not l.writes
allowed l wait_reconciler = l.reconciler && not l.sniffer
allowed l close_punches = l.punches && not l.reconciler
allowed l wait_pipeline = l.pipeline && not l.writes && not l.punches
allowed l wait_writer = l.writer && not l.pipeline
allowed l sync_backing = not l.writer
allowed l shut_http = l.http
allowed l close_hub = l.hub && not l.sniffer
allowed l close_overlay = l.overlay && not l.mounted && not l.writer
allowed l close_image = not l.overlay && not l.writer

-- What is there behind a step.
after : Faults → Life → Step → Life
after h l open_image = l
after h l stat_image = l
after h l check_regular = l
after h l find_partition = l
after h l new_overlay = record l { overlay = not (h new_overlay) }
after h l new_tracker = l
after h l start_hub = record l { hub = true }
after h l make_mount = l
after h l mount_disk = record l { mounted = not (h mount_disk) }
after h l start_writer = record l { writer = true }
after h l start_sniffer = record l { sniffer = true }
after h l start_reconciler = record l { reconciler = true }
after h l start_pipeline = record l { pipeline = true; writes = true; punches = true }
after h l listen = l
after h l serve = record l { http = true }
after h l set_up_gadget = record l { gadget = true }
after h l wait_signal = l
after h l tear_down_gadget = record l { gadget = false; gadget_left = h tear_down_gadget }
after h l unmount = record l { mounted = h unmount }
after h l close_writes = record l { writes = false }
after h l wait_sniffer = record l { sniffer = false }
after h l wait_reconciler = record l { reconciler = false }
after h l close_punches = record l { punches = false }
after h l wait_pipeline = record l { pipeline = false }
after h l wait_writer = record l { writer = false }
after h l sync_backing = l
after h l shut_http = record l { http = h shut_http }
after h l close_hub = record l { hub = false }
after h l close_overlay = record l { overlay = false; file_left = h close_overlay }
after h l close_image = l

-- The steps one after the other, as long as each is allowed.
pub follow : Faults → Life → List Step → Option Life
unfolding allowed after
follow h l [] = some l
follow h l (s ∷ ss) = elim (allowed l s) [ true ↦ follow h (after h l s) ss | false ↦ none ]

-- The exits on which `main` leaves the hub's goroutine to the end of the process.
abbrev pub leaves_hub : Exit → Bool
leaves_hub finished = false
leaves_hub (fatal make_mount) = true
leaves_hub (fatal mount_disk) = true
leaves_hub (fatal listen) = true
leaves_hub (fatal _) = false

-- What is left at the end of a run: nothing of the mount and of the workers, what the calls that
-- failed left of the overlay's file, the gadget and the server, and the hub behind such an exit.
abbrev pub IsOver : Faults → Exit → Life → Type 0
IsOver h e l =
    (l.overlay ≡ false)
    × (l.mounted ≡ false)
    × (l.gadget ≡ false)
    × (l.writer ≡ false)
    × (l.sniffer ≡ false)
    × (l.reconciler ≡ false)
    × (l.pipeline ≡ false)
    × (l.hub ≡ leaves_hub e)
    × (h close_overlay ≡ false → l.file_left ≡ false)
    × (h tear_down_gadget ≡ false → l.gadget_left ≡ false)
    × (h shut_http ≡ false → l.http ≡ false)

-- That is what the end of a run is, and no step was refused.
abbrev pub EndsOver : Faults → Exit → Option Life → Type 0
EndsOver h e none = ⊥
EndsOver h e (some l) = IsOver h e l

-- In every run of `main` in which each wait returns, whichever of its steps fail but Unmount,
-- with or without a gadget: each part is used only while it is there, the overlay is closed
-- only when neither the mount nor the writer needs it, the writes are closed only once FUSE is
-- unmounted, and each goroutine is waited for only once its inputs have ended. At the end the
-- overlay is closed, the mount is gone, Teardown was called for a gadget, and the writer,
-- sniffer, reconciler and pipeline have ended; the overlay's file, the gadget and the server
-- are gone unless Close, Teardown or Shutdown failed to remove them; and the hub's goroutine is
-- left exactly on the exits behind a failed directory or mount of FUSE or a failed start of the
-- HTTP server.
pub follow-main :
    (no_gadget : Bool) (h : Faults)
    → h unmount ≡ false
    → let (e, steps) = main no_gadget h in EndsOver h e (follow h nothing_there steps)
unfolding follow allowed after main check shutdown go without_http ends with_gadget
follow-main no_gadget h u = ground (arith, u)
