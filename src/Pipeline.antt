-- ===== src/Pipeline.antt =====
-- pipeline.go: the dispatcher that puts the writes in order, and its event loop. A channel that the
-- loop sends to is the list of what was sent; a receive is an event that the environment chooses.
pub mod Order
pub mod Arrival
pub mod Barrier
pub mod Submit
pub mod Punches
pub mod Handover
pub mod Room
pub mod Sync
mod Tests
use tssniff.Prelude.{
  ℕ, zero, suc, ◌+◌, Bool, true, false, not, List, [], ◌∷◌, ◌++◌, Option, none, some, ltb, leb,
  ◌==◌, if◌then◌else◌, length, ◌&&◌,
}
use tssniff.Events.{WriteEvent, ObservedWrite}

-- The map `pending`, from sequence numbers to writes.
abbrev pub Pending : Type 0
Pending = List (ℕ × WriteEvent)

pub lookup : ℕ → Pending → Option WriteEvent
lookup k [] = none
lookup k ((j, e) ∷ m) = if j == k then some e else lookup k m

pub insert : ℕ → WriteEvent → Pending → Pending
insert k e [] = (k, e) ∷ []
insert k e ((j, f) ∷ m) = if j == k then (k, e) ∷ m else (j, f) ∷ insert k e m

pub delete : ℕ → Pending → Pending
delete k [] = []
delete k ((j, f) ∷ m) = let rest = delete k m in if j == k then rest else (j, f) ∷ rest

-- What the writer's command queue gets.
pub data Command : Type 0 where
  write : ObservedWrite → Command
  barrier : ℕ → Command

-- The variables of `run`, and what it has sent to the sniffer, to the writer and to the
-- reconciler.
pub record Dispatcher : Type 0 where
  pub pending : Pending
  pub next_seq : ℕ
  pub dispatched_seq : ℕ
  pub writes_open : Bool
  pub sniffer_closed : Bool
  pub writer_closed : Bool
  pub returned : Bool
  pub to_sniffer : List WriteEvent
  pub to_writer : List Command
  pub to_observed : List ObservedWrite

pub start : Dispatcher
start = record {
  pending = [];
  next_seq = 1;
  dispatched_seq = 0;
  writes_open = true;
  sniffer_closed = false;
  writer_closed = false;
  returned = false;
  to_sniffer = [];
  to_writer = [];
  to_observed = [];
}

-- `dispatchWrite`. The send is an append, for runs in which the sniffer's channel has room; Room
-- says while what, and Handover what happens when it has none.
pub dispatch_write : WriteEvent → Dispatcher → Dispatcher
dispatch_write ev d = record d { dispatched_seq = ev.seq; to_sniffer = d.to_sniffer ++ (ev ∷ []) }

-- A round of the loop of `acceptWrite` up to its lookup: the write goes out, `nextSeq` moves on.
dispatch_next : WriteEvent → Dispatcher → Dispatcher
dispatch_next ev d = let d' = dispatch_write ev d in record d' { next_seq = d'.next_seq + 1 }

-- The loop of `acceptWrite`. Each round behind the first takes an entry out of `pending`, so its
-- length is enough fuel.
release_run : ℕ → WriteEvent → Dispatcher → Dispatcher
release_run zero ev d = dispatch_next ev d
release_run (suc fuel) ev d =
    let d' = dispatch_next ev d in
    elim (lookup d'.next_seq d'.pending) [
      | none ↦ d'
      | some next ↦ release_run fuel next (record d' { pending = delete d'.next_seq d'.pending })
    ]

-- `acceptWrite`; `nextSeq` does not wrap.
pub accept_write : WriteEvent → Dispatcher → Dispatcher
accept_write ev d =
    if ltb ev.seq d.next_seq
    then d
    else if ltb d.next_seq ev.seq
    then record d { pending = insert ev.seq ev d.pending }
    else release_run (suc (length d.pending)) ev d

-- The writes that arrive, one after the other.
pub accept_all : List WriteEvent → Dispatcher → Dispatcher
accept_all [] d = d
accept_all (e ∷ es) d = accept_all es (accept_write e d)

-- What the loop receives: a write, the end of `writes`, an output of the sniffer, the end of those,
-- or a barrier, with the writes that `writes` delivers while it is handled, and whether that
-- channel is closed behind them.
pub data Event : Type 0 where
  arrives : WriteEvent → Event
  writes_closed : Event
  output : ObservedWrite → Event
  output_closed : Event
  barrier_request : ℕ → List WriteEvent → Bool → Event

-- The loop of `handleBarrier`; `none` is a receive that blocks.
pub drain_until : ℕ → List WriteEvent → Bool → Dispatcher → Option Dispatcher
drain_until target [] closed d =
    if ltb d.dispatched_seq target && d.writes_open
    then (if closed then some (record d { writes_open = false }) else none)
    else some d
drain_until target (e ∷ es) closed d =
    let rest = drain_until target es closed (accept_write e d) in
    if ltb d.dispatched_seq target && d.writes_open then rest else some d

-- `p.writer.SubmitBarrier`
submit_barrier : ℕ → Option Dispatcher → Option Dispatcher
submit_barrier target none = none
submit_barrier target (some d) =
    some (record d { to_writer = d.to_writer ++ (barrier target ∷ []) })

-- What stands behind the loop.
finish : Dispatcher → Dispatcher
finish d = record d { sniffer_closed = true; writer_closed = true; returned = true }

-- The loop's test, made behind each receive.
looped : Option Dispatcher → Option Dispatcher
looped none = none
looped (some d) = some (if d.writes_open then d else finish d)

-- One round of the `select` of `run`.
receive : Event → Dispatcher → Option Dispatcher
receive (arrives ev) d = looped (some (accept_write ev d))
receive writes_closed d = looped (some (record d { writes_open = false; sniffer_closed = true }))
receive (output ev) d = looped (
    some (record d {
      dispatched_seq = ev.event.seq;
      to_writer = d.to_writer ++ (write ev ∷ []);
      to_observed = d.to_observed ++ (ev ∷ []);
    }))
receive output_closed d = some (record d { returned = true })
receive (barrier_request target es closed) d =
    looped (submit_barrier target (drain_until target es closed d))

-- A loop that has ended receives nothing.
pub step : Event → Dispatcher → Option Dispatcher
step e d = if d.returned then some d else receive e d

pub run : List Event → Dispatcher → Option Dispatcher
run [] d = some d
run (e ∷ es) d = elim (step e d) [ none ↦ none | some d' ↦ run es d' ]
