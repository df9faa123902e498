-- ===== src/Pipeline/Submit/Tests.antt =====
-- Two writes into a channel of depth 1, of which the second waits; then the channel is closed.
use tssniff.Prelude.{
  ℕ, zero, suc, ◌≤◌, ◌+◌, length, ◌≡◌, ◌++◌, refl, inl, inr, arith, some, false, Bool, true, List,
  [], ◌∷◌,
}
use tssniff.Events.{WriteEvent}
use tssniff.Pipeline.Submit.{
  Event, submits, enters, receives, starts_closing, finishes_closing, new_queue, run, step, submit,
  submit_when, enter, enter_with, pick, receive, receive_from,
}
use tssniff.Pipeline.{Dispatcher, Command, barrier, start, accept_all}
use tssniff.Pipeline.Arrival.{HasSeq}
use tssniff.Pipeline.Handover.{sniffer_queue_depth}
use tssniff.Pipeline.Sync.{sync, sync-reaches}
use tssniff.Pipeline.Submit.Kept.{count, IsKept, run-IsKept}

abbrev numbered : ℕ → WriteEvent
numbered n = record {
  seq = n;
  offset = 0;
  bytes = [];
  staged = record { start = 0; end = 0; gen = 0 };
  touches_mft = true;
}

abbrev events : List Event
events =
    submits (numbered 1)
    ∷ submits (numbered 2)
    ∷ starts_closing
    ∷ receives
    ∷ enters 0
    ∷ finishes_closing
    ∷ receives
    ∷ []

run-IsKept_example :
    let q = run 1 events new_queue in
    IsKept 1 q
    × (q.closed ≡ true
        → q.items ≡ []
        → (p : WriteEvent → Bool) → count p q.accepted ≡ count p q.received)
run-IsKept_example = run-IsKept 1 events

-- The second write is in the channel when Sync asks for it.
abbrev sent_late : List Event
sent_late = submits (numbered 1) ∷ submits (numbered 2) ∷ receives ∷ enters 0 ∷ []

none_late : (run 1 sent_late new_queue).senders ≡ []
unfolding run step submit submit_when enter enter_with pick receive receive_from
none_late = refl

still_open : (run 1 sent_late new_queue).closed ≡ false
unfolding run step submit submit_when enter enter_with pick receive receive_from
still_open = refl

both_taken : (k : ℕ) → 1 ≤ k → k ≤ 2 → HasSeq k (run 1 sent_late new_queue).accepted
unfolding run step submit submit_when enter enter_with pick receive receive_from
both_taken zero a b = absurd (omega (arith, a))
both_taken (suc zero) a b = inl refl
both_taken (suc (suc zero)) a b = inr (inl refl)
both_taken (suc (suc (suc k))) a b = absurd (omega (arith, b))

few_taken :
    let q = run 1 sent_late new_queue in length q.received + length q.items ≤ sniffer_queue_depth
unfolding run step submit submit_when enter enter_with pick receive receive_from
few_taken = omega arith

sync-reaches_example :
    let q = run 1 sent_late new_queue in
    let d = accept_all q.received start in
    (d' : Dispatcher) × (sync 2 q d ≡ some d')
    × (2 ≤ d'.dispatched_seq)
    × ((c : List Command) × (d'.to_writer ≡ c ++ (barrier 2 ∷ [])))
    × (length d'.to_sniffer ≤ sniffer_queue_depth)
sync-reaches_example = sync-reaches 1 2 sent_late none_late still_open both_taken few_taken
