-- ===== src/Hub.antt =====
-- hub.go: the queue in front of the dispatch loop and the inbox of a client. A full one gives up
-- its oldest entry for the new one. A channel is the list of what it holds, oldest first, and each
-- `select` of the sender and each receive is a step, so that they interleave in any order.
pub mod Order
pub mod Clients
mod Tests
use tssniff.Prelude.{
  ℕ, ◌+◌, Bool, true, false, List, [], ◌∷◌, ◌++◌, ltb, ◌==◌, if◌then◌else◌, length, drop,
}

abbrev pub hub_queue_depth : ℕ
hub_queue_depth = 4096

abbrev pub client_inbox_depth : ℕ
client_inbox_depth = 4096

-- A payload of packets.
abbrev pub Payload : Type 0
Payload = List ℕ

-- Where the sender is: in none of the `select`s, behind the first, which found the channel full, or
-- behind the second, which took the oldest entry if there was one.
pub data Stage : Type 0 where
  idle : Stage
  refused dropped : Payload → Stage

-- The channel and its sender, with what was handed to the sender and what was received.
pub record Channel : Type 0 where
  pub items : List Payload
  pub stage : Stage
  pub handed : List Payload
  pub received : List Payload

pub new_channel : Channel
new_channel = record { items = []; stage = idle; handed = []; received = [] }

-- A send without blocking into a channel of depth `n`: the first and the third `select`.
try_send : ℕ → Payload → Stage → Channel → Channel
try_send n payload failed c =
    if ltb (length c.items) n
    then record c { items = c.items ++ (payload ∷ []); stage = idle }
    else record c { stage = failed }

-- The first `select`, for a sender that is not in one; `Broadcast` of the hub and `dispatch` for a
-- client are this and `go_on`.
pub send : ℕ → Payload → Channel → Channel
unfolding try_send
send n payload c = elim c.stage [
  | idle ↦ try_send n payload (refused payload) (record c { handed = c.handed ++ (payload ∷ []) })
  | refused p ↦ c
  | dropped p ↦ c
]

-- The second `select` and the third.
pub go_on : ℕ → Channel → Channel
unfolding try_send
go_on n c = elim c.stage [
  | idle ↦ c
  | refused p ↦ record c { items = drop 1 c.items; stage = dropped p }
  | dropped p ↦ try_send n p idle c
]

-- The receiver takes the oldest entry, if there is one.
pub receive : Channel → Channel
receive c = elim c.items [
  | [] ↦ c
  | p ∷ ps ↦ record c { items = ps; received = c.received ++ (p ∷ []) }
]

-- `Broadcast` up to its first `select`.
pub broadcast : Payload → Channel → Channel
broadcast payload c = if length payload == 0 then c else send hub_queue_depth payload c

pub data Action : Type 0 where
  sends : Payload → Action
  goes_on receives : Action

pub act : ℕ → Action → Channel → Channel
act n (sends p) c = send n p c
act n goes_on c = go_on n c
act n receives c = receive c

pub act_all : ℕ → List Action → Channel → Channel
act_all n [] c = c
act_all n (a ∷ as') c = act_all n as' (act n a c)
