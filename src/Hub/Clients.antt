-- ===== src/Hub/Clients.antt =====
-- The clients of hub.go: the set with Register and Unregister, dispatch to each of them, and the
-- loop of drain. A client keeps its number, which stands for its address, whether it is in the set,
-- how often its `done` was closed (a second close would panic), and its two channels. The three
-- `select`s of dispatch for a client are one step, and so is each of drain: the runs in which drain
-- takes an entry between two of dispatch's `select`s, and so makes room itself, are left out. Only
-- drain sends to `out`.
pub mod Valid
pub mod Order
mod Tests
use tssniff.Prelude.{
  ℕ, zero, suc, ◌+◌, Bool, true, false, not, ◌||◌, ◌&&◌, List, [], ◌∷◌, ◌++◌, ltb, ◌==◌,
  if◌then◌else◌, length, drop,
}
use tssniff.Hub.{Payload}

abbrev pub client_out_depth : ℕ
client_out_depth = 8192

-- `Client`
pub record Client : Type 0 where
  pub id : ℕ
  pub registered : Bool
  pub closes : ℕ
  pub inbox : List Payload
  pub out : List Payload
  pub out_closed : Bool

abbrev pub new_client : ℕ → Client
new_client id = record {
  id = id;
  registered = true;
  closes = 0;
  inbox = [];
  out = [];
  out_closed = false;
}

-- `Register` of a client with a new number
pub register : ℕ → List Client → List Client
register id cs = new_client id ∷ cs

-- What `Unregister` does to a client that is in the set.
abbrev pub leave : Client → Client
leave c = record c { registered = false; closes = c.closes + 1 }

-- `Unregister` of the client with that number; `ok` is that it is in the set.
pub unregister : ℕ → List Client → List Client
unregister id [] = []
unregister id (c ∷ cs) =
    let rest = unregister id cs in if c.id == id && c.registered then leave c ∷ rest else c ∷ rest

-- The three `select`s of `dispatch` for one inbox of depth `n`.
pub offer : ℕ → Payload → List Payload → List Payload
offer n payload items =
    if ltb (length items) n
    then items ++ (payload ∷ [])
    else let items' = drop 1 items in
      if ltb (length items') n then items' ++ (payload ∷ []) else items'

-- The body of the loop of `dispatch`, for a client that is in the set or not.
pub dispatch_to : Bool → ℕ → Payload → Client → Client
dispatch_to false n payload c = c
dispatch_to true n payload c = record c { inbox = offer n payload c.inbox }

-- `dispatch`
pub dispatch : ℕ → Payload → List Client → List Client
dispatch n payload [] = []
dispatch n payload (c ∷ cs) = dispatch_to c.registered n payload c ∷ dispatch n payload cs

-- The inner loop of `drain` into a channel of depth `n`: it makes room until the send goes through.
-- Each round but the last takes an entry, so one more than there are entries is enough fuel.
pub push : ℕ → ℕ → Payload → List Payload → List Payload
push zero n payload out = out
push (suc fuel) n payload out =
    let again = push fuel n payload (drop 1 out) in
    if ltb (length out) n then out ++ (payload ∷ []) else again

-- A round of `drain` for what the inbox holds. When both cases are ready, `prefer` says whether
-- `done` is taken; behind it there are no rounds.
pub drain_round : List Payload → ℕ → Bool → Client → Client
drain_round [] n prefer c = record c { out_closed = c.out_closed || ltb 0 c.closes }
drain_round (p ∷ ps) n prefer c =
    if c.out_closed || ltb 0 c.closes && prefer
    then record c { out_closed = true }
    else record c { inbox = ps; out = push (length c.out + 1) n p c.out }

-- `drain` of the client with that number.
pub drain : ℕ → ℕ → Bool → List Client → List Client
drain n id prefer [] = []
drain n id prefer (c ∷ cs) =
    let rest = drain n id prefer cs in
    if c.id == id then drain_round c.inbox n prefer c ∷ rest else c ∷ rest

-- What happens to the clients.
pub data Event : Type 0 where
  registers unregisters : ℕ → Event
  dispatches : Payload → Event
  drains : ℕ → Bool → Event

pub step : ℕ → ℕ → Event → List Client → List Client
step n m (registers id) cs = register id cs
step n m (unregisters id) cs = unregister id cs
step n m (dispatches payload) cs = dispatch n payload cs
step n m (drains id prefer) cs = drain m id prefer cs

pub run : ℕ → ℕ → List Event → List Client → List Client
run n m [] cs = cs
run n m (e ∷ es) cs = run n m es (step n m e cs)
