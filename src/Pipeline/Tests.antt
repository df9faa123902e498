-- ===== src/Pipeline/Tests.antt =====
-- Runs of the dispatcher with two writes at the sniffer, and with more writes than there is room for.
use tssniff.Prelude.{ℕ, ◌+◌, ◌<◌, ◌≡◌, refl, true, false, [], ◌∷◌, none, some, arith, length}
use tssniff.Events.{WriteEvent, ObservedWrite}
use tssniff.Pipeline.{Dispatcher, barrier, output, barrier_request, run}
use tssniff.Pipeline.Handover.{Handover, dispatches, takes, gives, run-blocked, run as run_handover}
use tssniff.Pipeline.Barrier.{barrier_blocks_after_output}

abbrev write_at : ℕ → ℕ → WriteEvent
write_at n off = record {
  seq = n;
  offset = off;
  bytes = n ∷ [];
  staged = record { start = off; end = off + 1; gen = n };
  touches_mft = false;
}

abbrev observed : ℕ → ℕ → ObservedWrite
observed n off = record { event = write_at n off; mpegts = false; captures = [] }

-- Two writes are with the sniffer.
abbrev busy : Dispatcher
busy = record {
  pending = [];
  next_seq = 3;
  dispatched_seq = 2;
  writes_open = true;
  sniffer_closed = false;
  writer_closed = false;
  returned = false;
  to_sniffer = write_at 1 8 ∷ write_at 2 64 ∷ [];
  to_writer = [];
  to_observed = [];
}

barrier_blocks_after_output_example :
    (run (barrier_request 2 [] false ∷ []) busy ≡ some (record busy { to_writer = barrier 2 ∷ [] }))
    × (run (output (observed 1 8) ∷ barrier_request 2 [] false ∷ []) busy ≡ none)
barrier_blocks_after_output_example =
    barrier_blocks_after_output 2 (observed 1 8) busy refl refl (omega arith) (omega arith)

-- Four writes are ready, and each channel has one place.
abbrev crowded : Handover
crowded = record {
  left = write_at 1 0 ∷ write_at 2 8 ∷ write_at 3 16 ∷ write_at 4 24 ∷ [];
  input = [];
  hand = none;
  output = [];
}

run-blocked_example :
    0
    < length
        (run_handover 1
          (dispatches ∷ takes ∷ gives ∷ dispatches ∷ takes ∷ dispatches ∷ [])
          crowded).left
run-blocked_example =
    run-blocked 1 (dispatches ∷ takes ∷ gives ∷ dispatches ∷ takes ∷ dispatches ∷ []) crowded
      (omega arith) (omega arith) (omega arith)
