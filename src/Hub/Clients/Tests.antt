-- ===== src/Hub/Clients/Tests.antt =====
-- A client that registers, gets a payload and is unregistered twice.
use tssniff.Prelude.{List, [], ◌∷◌, true}
use tssniff.Hub.Clients.{Event, registers, unregisters, dispatches, drains, run}
use tssniff.Hub.Clients.Valid.{AllValid, run-AllValid}

abbrev events : List Event
events =
    registers 3
    ∷ dispatches (7 ∷ [])
    ∷ drains 3 true
    ∷ unregisters 3
    ∷ unregisters 3
    ∷ drains 3 true
    ∷ []

run-AllValid_example : AllValid 2 2 (run 2 2 events [])
run-AllValid_example = run-AllValid 2 2 events [] tt
