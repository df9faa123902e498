-- ===== src/Http.antt =====
-- httpserver.go: a request for `/stream`, with its client of hub.go. The handler, the loop of
-- drain, dispatch and the goroutine that waits for the context interleave in any order. Headers and
-- Flush are left out.
pub mod Delivery
pub mod Ends
mod Tests
use tssniff.Prelude.{ℕ, Bool, true, false, List, [], ◌∷◌, ◌++◌, if◌then◌else◌}
use tssniff.Hub.{Payload}
use tssniff.Hub.Clients.{Client, new_client, leave, dispatch_to, drain_round}

-- The client, the payloads that were written to the response, whether the handler returned, and the
-- payloads that were dispatched while the client was in the set.
pub record Connection : Type 0 where
  pub client : Client
  pub sent : List Payload
  pub returned : Bool
  pub offered : List Payload

-- The handler up to its loop.
pub connect : ℕ → Connection
connect id = record { client = new_client id; sent = []; returned = false; offered = [] }

-- `Unregister`, by whether the client is in the set.
pub unregister_if : Bool → Connection → Connection
unregister_if false k = k
unregister_if true k = record k { client = leave k.client }

pub cancel : Connection → Connection
unfolding unregister_if
cancel k = unregister_if k.client.registered k

-- The handler returns, by its deferred `Unregister`.
pub finish : Connection → Connection
unfolding cancel
finish k = cancel (record k { returned = true })

end_when : Bool → Connection → Connection
unfolding finish
end_when true k = finish k
end_when false k = k

-- A round of the handler's loop, for what the channel holds; `ok` says whether the write goes
-- through. An empty channel that is open blocks.
pub serve_round : List Payload → Bool → Connection → Connection
unfolding finish end_when
serve_round [] ok k = end_when k.client.out_closed k
serve_round (p ∷ ps) true k = record k {
  client = record k.client { out = ps };
  sent = k.sent ++ (p ∷ []);
}
serve_round (p ∷ ps) false k = finish (record k { client = record k.client { out = ps } })

pub serve_if : Bool → Bool → Connection → Connection
unfolding serve_round
serve_if true ok k = k
serve_if false ok k = serve_round k.client.out ok k

-- `dispatch` of a payload to the client.
pub offer_to : Bool → ℕ → Payload → Connection → Connection
offer_to false n payload k = k
offer_to true n payload k = record k {
  client = dispatch_to true n payload k.client;
  offered = k.offered ++ (payload ∷ []);
}

pub data Event : Type 0 where
  dispatches : Payload → Event
  drains : Bool → Event
  serves : Bool → Event
  cancels : Event

-- `n` and `m` are the depths of the client's two channels.
pub step : ℕ → ℕ → Event → Connection → Connection
unfolding offer_to serve_if cancel
step n m (dispatches payload) k = offer_to k.client.registered n payload k
step n m (drains prefer) k = record k { client = drain_round k.client.inbox m prefer k.client }
step n m (serves ok) k = serve_if k.returned ok k
step n m cancels k = cancel k

pub run : ℕ → ℕ → List Event → Connection → Connection
unfolding step
run n m [] k = k
run n m (e ∷ es) k = run n m es (step n m e k)
