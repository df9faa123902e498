-- ===== src/Http/Tests.antt =====
-- A request for the stream with channels of two payloads.
use tssniff.Prelude.{suc, ◌≡◌, refl, true, false, List, [], ◌∷◌, length, replicate}
use tssniff.Http.{Event, dispatches, drains, serves, cancels, connect, run, step, offer_to}
use tssniff.Http.Delivery.{IsDelivered, run-IsDelivered}
use tssniff.Http.Ends.{Flushed, serve_cancelled}

-- The first payload is given up for the third.
abbrev busy : List Event
busy =
    dispatches (1 ∷ [])
    ∷ dispatches (2 ∷ [])
    ∷ dispatches (3 ∷ [])
    ∷ drains false
    ∷ serves true
    ∷ []

run-IsDelivered_example : IsDelivered (run 2 2 busy (connect 5))
run-IsDelivered_example = run-IsDelivered 2 2 busy 5

abbrev one : List Event
one = dispatches (1 ∷ []) ∷ drains false ∷ []

still_there : (run 2 2 one (connect 5)).returned ≡ false
unfolding run step offer_to connect
still_there = refl

serve_cancelled_example :
    let k = run 2 2 one (connect 5) in
    Flushed k k.client.out
      (run 2 2 (cancels ∷ drains true ∷ replicate (suc (length k.client.out)) (serves true)) k)
serve_cancelled_example = serve_cancelled 2 2 5 one still_there
