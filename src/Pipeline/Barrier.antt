-- ===== src/Pipeline/Barrier.antt =====
-- The event loop of `run`: what the writer and the reconciler get, and what a barrier waits for.
use mathlib.Core.List.{append-nil}
use tssniff.Prelude.{
  ℕ, zero, suc, ◌+◌, ◌≤◌, ◌<◌, ◌≡◌, inl, inr, refl, ◌∙◌, ap, subst, Bool, true, false, List, [],
  ◌∷◌, ◌++◌, Option, none, some, arith, if◌then◌else◌, length, Bool-cases, Option-cases,
}
use tssniff.Events.{WriteEvent, ObservedWrite}
use tssniff.Pipeline.{
  Dispatcher, Command, write, barrier, dispatch_write, dispatch_next, release_run, accept_write,
  Event, arrives, writes_closed, output, output_closed, barrier_request, drain_until,
  submit_barrier, finish, looped, receive, step, run, lookup,
}

-- The writes among the commands.
unfoldable pub written : List Command → List ObservedWrite
written [] = []
written (write o ∷ cs) = o ∷ written cs
written (barrier t ∷ cs) = written cs

written-append : (cs ds : List Command) → written (cs ++ ds) ≡ written cs ++ written ds
unfolding written
written-append [] ds = refl
written-append (write o ∷ cs) ds = ap (◌∷◌ o) (written-append cs ds)
written-append (barrier t ∷ cs) ds = written-append cs ds

-- A dispatch sends the writer and the reconciler nothing.
abbrev pub Same : Dispatcher → Dispatcher → Type 0
Same d d' =
    (d'.to_writer ≡ d.to_writer)
    × (d'.to_observed ≡ d.to_observed)
    × (d'.writes_open ≡ d.writes_open)
    × (d'.returned ≡ d.returned)

release_run-Same : (fuel : ℕ) (ev : WriteEvent) (d : Dispatcher) → Same d (release_run fuel ev d)
unfolding release_run dispatch_next dispatch_write
release_run-Same zero ev d = (refl, refl, refl, refl)
release_run-Same (suc fuel) ev d = elim (Option-cases (lookup (d.next_seq + 1) d.pending)) [
  | inl e ↦ rw (e, release_run) (refl, refl, refl, refl)
  | inr (next, e) ↦ rw (e, release_run) (release_run-Same fuel next _)
]

pub accept_write-Same : (ev : WriteEvent) (d : Dispatcher) → Same d (accept_write ev d)
unfolding accept_write
accept_write-Same ev d = ground (arith, release_run-Same (suc (length d.pending)) ev d)

-- The writer and the reconciler have got the same writes, in the same order.
abbrev pub InStep : Dispatcher → Type 0
InStep d = written d.to_writer ≡ d.to_observed

abbrev pub AllInStep : Option Dispatcher → Type 0
AllInStep none = Unit {0}
AllInStep (some d) = InStep d

looped-AllInStep : (o : Option Dispatcher) → AllInStep o → AllInStep (looped o)
unfolding looped finish
looped-AllInStep none h = tt
looped-AllInStep (some d) h = elim (Bool-cases d.writes_open) [
  | inl e ↦ ground arith
  | inr e ↦ ground arith
]

drain_until-AllInStep :
    (target : ℕ) (es : List WriteEvent) (closed : Bool) (d : Dispatcher)
    → InStep d
    → AllInStep (drain_until target es closed d)
unfolding drain_until
drain_until-AllInStep target [] closed d h = ground arith
drain_until-AllInStep target (e ∷ es) closed d h =
    ground (arith, accept_write-Same e d, drain_until-AllInStep target es closed (accept_write e d))

submit_barrier-AllInStep :
    (target : ℕ) (o : Option Dispatcher) → AllInStep o → AllInStep (submit_barrier target o)
unfolding submit_barrier written
submit_barrier-AllInStep target none h = tt
submit_barrier-AllInStep target (some d) h =
    written-append d.to_writer (barrier target ∷ []) ∙ append-nil (written d.to_writer) ∙ h

receive-AllInStep : (e : Event) (d : Dispatcher) → InStep d → AllInStep (receive e d)
unfolding receive written
receive-AllInStep (arrives ev) d h =
    looped-AllInStep (some (accept_write ev d)) (ground (arith, accept_write-Same ev d))
receive-AllInStep writes_closed d h = looped-AllInStep (some _) h
receive-AllInStep (output ev) d h =
    looped-AllInStep (some _)
      (written-append d.to_writer (write ev ∷ []) ∙ ap (λ os. os ++ (ev ∷ [])) h)
receive-AllInStep output_closed d h = h
receive-AllInStep (barrier_request target es closed) d h =
    looped-AllInStep _
      (submit_barrier-AllInStep target _ (drain_until-AllInStep target es closed d h))

either :
    (b : Bool) (o p : Option Dispatcher)
    → AllInStep o
    → AllInStep p
    → AllInStep (if b then o else p)
either true o p h k = h
either false o p h k = k

step-AllInStep : (e : Event) (d : Dispatcher) → InStep d → AllInStep (step e d)
unfolding step
step-AllInStep e d h = either d.returned (some d) (receive e d) h (receive-AllInStep e d h)

-- If the writer and the reconciler have got the same writes in the same order, they have still
-- after any sequence of events that the loop of `run` receives without blocking for ever.
pub run-AllInStep : (es : List Event) (d : Dispatcher) → InStep d → AllInStep (run es d)
unfolding run
run-AllInStep [] d h = h
run-AllInStep (e ∷ es) d h = elim (Option-cases (step e d)) [
  | inl n ↦ rw (n, run) tt
  | inr (d', s) ↦ rw (s, run) (run-AllInStep es d' (subst AllInStep s (step-AllInStep e d h)))
]

-- A barrier whose target was dispatched to the sniffer goes to the writer at once, ahead of
-- every write that the sniffer has not given back yet.
pub barrier_overtakes :
    (target : ℕ) (es : List WriteEvent) (closed : Bool) (d : Dispatcher)
    → d.returned ≡ false
    → d.writes_open ≡ true
    → target ≤ d.dispatched_seq
    → step (barrier_request target es closed) d
      ≡ some (record d { to_writer = d.to_writer ++ (barrier target ∷ []) })
unfolding step receive looped submit_barrier drain_until
barrier_overtakes target [] closed d r o h = ground arith
barrier_overtakes target (e ∷ es) closed d r o h = ground arith

-- For a barrier whose target was dispatched: handled now it goes to the writer, but handled
-- behind an output of the sniffer with a smaller number, while no further write arrives, it
-- blocks.
pub barrier_blocks_after_output :
    (target : ℕ) (ev : ObservedWrite) (d : Dispatcher)
    → d.returned ≡ false
    → d.writes_open ≡ true
    → target ≤ d.dispatched_seq
    → ev.event.seq < target
    → (run (barrier_request target [] false ∷ []) d
        ≡ some (record d { to_writer = d.to_writer ++ (barrier target ∷ []) }))
      × (run (output ev ∷ barrier_request target [] false ∷ []) d ≡ none)
unfolding run step receive looped submit_barrier drain_until
barrier_blocks_after_output target ev d r o h l = ground arith

run_returned : (es : List Event) (d : Dispatcher) → d.returned ≡ true → run es d ≡ some d
unfolding run step
run_returned [] d r = refl
run_returned (e ∷ es) d r = ground (arith, run_returned es d r)

-- Once `writes` is closed the loop ends: whatever outputs of the sniffer follow, the writer and
-- the reconciler get nothing more.
pub outputs_after_close :
    (es : List Event) (d : Dispatcher)
    → d.returned ≡ false
    → run (writes_closed ∷ es) d
      ≡ some (record d {
        writes_open = false;
        sniffer_closed = true;
        writer_closed = true;
        returned = true;
      })
unfolding run step receive looped finish
outputs_after_close es d r =
    ground
      (arith, run_returned es (finish (record d { writes_open = false; sniffer_closed = true })))
