-- ===== src/Pipeline/Submit.antt =====
-- The channel in front of the dispatcher: SubmitWrite, the goroutines that send when it is full,
-- and CloseWrites. A goroutine that waits to send is an entry of `senders`; which of them comes
-- next is free.
pub mod Kept
mod Tests
use tssniff.Prelude.{
  ℕ, zero, suc, ◌+◌, Bool, true, false, not, ◌||◌, ◌&&◌, List, [], ◌∷◌, ◌++◌, Option, none, some,
  ltb, ◌==◌, if◌then◌else◌, length,
}
use tssniff.Events.{WriteEvent}

-- The channel `writes` with its senders; beside them, what SubmitWrite took and what was received.
pub record Queue : Type 0 where
  pub items : List WriteEvent
  pub senders : List WriteEvent
  pub closing : Bool
  pub closed : Bool
  pub accepted : List WriteEvent
  pub received : List WriteEvent

abbrev pub new_queue : Queue
new_queue = record {
  items = [];
  senders = [];
  closing = false;
  closed = false;
  accepted = [];
  received = [];
}

-- `SubmitWrite` on a channel of depth `n`, for what `closing` says; whether the write was taken. It
-- is one step: no write runs beside CloseWrites, which is called once FUSE is unmounted.
pub submit_when : Bool → ℕ → WriteEvent → Queue → Bool × Queue
submit_when true n ev q = (false, q)
submit_when false n ev q =
    if ltb (length q.items) n
    then (true, record q { items = q.items ++ (ev ∷ []); accepted = q.accepted ++ (ev ∷ []) })
    else (true, record q { senders = q.senders ++ (ev ∷ []); accepted = q.accepted ++ (ev ∷ []) })

pub submit : ℕ → WriteEvent → Queue → Bool × Queue
submit n ev q = submit_when q.closing n ev q

-- The sender at index `i`, and the others.
pub pick : ℕ → List WriteEvent → Option (WriteEvent × List WriteEvent)
pick i [] = none
pick zero (s ∷ ss) = some (s, ss)
pick (suc i) (s ∷ ss) = elim (pick i ss) [ none ↦ none | some r ↦ some (r.0, s ∷ r.1) ]

-- The send of a goroutine that goes through.
pub enter_with : Option (WriteEvent × List WriteEvent) → Queue → Queue
enter_with none q = q
enter_with (some (ev, others)) q = record q { items = q.items ++ (ev ∷ []); senders = others }

pub enter : ℕ → ℕ → Queue → Queue
enter n i q = if ltb (length q.items) n then enter_with (pick i q.senders) q else q

-- The receive of the dispatcher.
pub receive_from : List WriteEvent → Queue → Queue
receive_from [] q = q
receive_from (ev ∷ evs) q = record q { items = evs; received = q.received ++ (ev ∷ []) }

pub receive : Queue → Queue
receive q = receive_from q.items q

-- `CloseWrites`: first the flag, then, once no sender is left, the channel.
pub start_closing : Queue → Queue
start_closing q = record q { closing = true }

pub finish_closing : Queue → Queue
finish_closing q = record q { closed = q.closed || (q.closing && length q.senders == 0) }

pub data Event : Type 0 where
  submits : WriteEvent → Event
  enters : ℕ → Event
  receives starts_closing finishes_closing : Event

pub step : ℕ → Event → Queue → Queue
step n (submits ev) q = (submit n ev q).1
step n (enters i) q = enter n i q
step n receives q = receive q
step n starts_closing q = start_closing q
step n finishes_closing q = finish_closing q

pub run : ℕ → List Event → Queue → Queue
run n [] q = q
run n (e ∷ es) q = run n es (step n e q)
