-- ===== src/Main.antt =====
-- main.go: the order in which the program starts its parts and stops them again. What a call
-- returns is given, and every wait returns: a run that is stuck in one has no end to speak of.
-- `start_hub` is `NewHub`, which starts the goroutine of the hub. The flags but `-no-gadget` choose names and what is logged, and the log is left
-- out.
pub mod Order
mod Tests
use tssniff.Prelude.{Bool, true, false, not, List, [], ◌∷◌, ◌++◌, if◌then◌else◌}

-- What `main` and `shutdown` do to the parts. `check_regular` is the test of the image's mode.
pub data Step : Type 0 where
  open_image stat_image check_regular find_partition new_overlay new_tracker start_hub : Step
  make_mount : Step
  mount_disk start_writer start_sniffer start_reconciler start_pipeline listen serve : Step
  set_up_gadget wait_signal tear_down_gadget unmount close_writes wait_sniffer : Step
  wait_reconciler close_punches wait_pipeline wait_writer sync_backing shut_http close_hub : Step
  close_overlay close_image : Step

-- How the program ends: `log.Fatalf` behind a step that failed, or the end of `main`.
pub data Exit : Type 0 where
  fatal : Step → Exit
  finished : Exit

-- Which steps fail: a call returns an error, and `Teardown`, which drops the errors of its calls,
-- leaves something of the gadget.
abbrev pub Faults : Type 0
Faults = Step → Bool

-- A run: its end and its steps, oldest first.
abbrev pub Run : Type 0
Run = Faults → Exit × List Step

-- `if err != nil { ...; log.Fatalf(...) }` behind a step, with what is done before the exit.
check : Step → List Step → Run → Run
check s before_exit rest h =
    if h s then (fatal s, s ∷ before_exit) else let (e, t) = rest h in (e, s ∷ t)

-- Steps without such a test.
go : List Step → Run → Run
go ss rest h = let (e, t) = rest h in (e, ss ++ t)

-- `shutdown`; `gadget` says whether there is one.
pub shutdown : Bool → List Step
shutdown gadget =
    (if gadget then tear_down_gadget ∷ [] else [])
    ++ (unmount ∷ close_writes ∷ wait_sniffer ∷ wait_reconciler ∷ close_punches ∷ wait_pipeline
        ∷ wait_writer ∷ sync_backing ∷ shut_http ∷ close_hub ∷ close_overlay ∷ [])

-- What `main` does when `newStreamServer` fails.
without_http : List Step
without_http =
    unmount ∷ close_writes ∷ wait_sniffer ∷ wait_reconciler ∷ close_punches ∷ wait_pipeline
    ∷ wait_writer ∷ close_overlay ∷ []

-- The deferred `imgFile.Close`, which `log.Fatalf` leaves out.
ends : Run
ends h = (finished, close_image ∷ [])

-- `main` from the test of `noGadget` on.
with_gadget : Bool → Run
unfolding check go shutdown ends
with_gadget true = go (wait_signal ∷ shutdown false) ends
with_gadget false = check set_up_gadget (shutdown true) (go (wait_signal ∷ shutdown true) ends)

-- `main`; the argument is the flag `-no-gadget`.
pub main : Bool → Run
unfolding check go without_http with_gadget
main no_gadget = check open_image [] (
    check stat_image [] (
      check check_regular [] (
        check find_partition [] (
          check new_overlay [] (
            check new_tracker (close_overlay ∷ []) (
              go (start_hub ∷ []) (
                check make_mount (close_overlay ∷ []) (
                  check mount_disk (close_overlay ∷ []) (
                    go (start_writer ∷ start_sniffer ∷ start_reconciler ∷ start_pipeline ∷ [])
                      (check listen without_http (go (serve ∷ []) (with_gadget no_gadget))))))))))))
