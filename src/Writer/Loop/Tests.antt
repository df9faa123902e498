-- ===== src/Writer/Loop/Tests.antt =====
-- A loop that is sent a barrier and a punch, and then closed.
use tssniff.Prelude.{◌≡◌, refl, true, false, List, [], ◌∷◌, none, arith, replicate}
use tssniff.Journal.{no_record}
use tssniff.Writer.{Writer}
use tssniff.Writer.Loop.{
  barrier_command, Os, returned, Loop, new_loop, sends, submits, closes_input, closes_punch_input,
  moves, run, Event,
}
use tssniff.Writer.Loop.Order.{IsOrderly, run-IsOrderly}
use tssniff.Writer.Loop.Ends.{all_moves, run-closed_returns}

abbrev idle : Writer
idle = record {
  disk = λ x. 5;
  shm = record { size = 64; content = λ x. 0; next_gen = 1; closed = false; extents = [] };
  recent = record { items = replicate 4 no_record; head = 0; count = 0 };
}

abbrev calm : Os
calm = record { io = record { count = 0; error = none }; release = none; punch = none; sync = none }

abbrev events : List Event
events =
    sends barrier_command
    ∷ submits (record { capture_seq = 3; start = 9; end = 12 })
    ∷ moves true calm
    ∷ closes_input
    ∷ closes_punch_input
    ∷ []

run-IsOrderly_example :
    let l = run events (new_loop idle) in
    IsOrderly l
    × (l.phase ≡ returned
        → (l.sent_commands ≡ l.handled_commands) × (l.sent_punches ≡ l.handled_punches))
run-IsOrderly_example = run-IsOrderly events idle

abbrev closing : Loop
closing = record (new_loop idle) {
  commands = barrier_command ∷ [];
  punches = record { capture_seq = 3; start = 9; end = 12 } ∷ [];
  in_closed = true;
  punch_closed = true;
}

run-closed_returns_example : (run (all_moves (replicate 10 (false, calm))) closing).phase ≡ returned
run-closed_returns_example =
    run-closed_returns (replicate 10 (false, calm)) closing (refl, refl) (omega arith)
