-- ===== src/Http/Delivery.antt =====
-- What a client of the stream of httpserver.go gets.
use mathlib.Core.List.{append_assoc}
use tssniff.Prelude.{
  ℕ, ◌<◌, ◌≡◌, refl, sym, subst, Bool, true, false, List, [], ◌∷◌, ◌++◌, arith, if◌then◌else◌,
}
use tssniff.Hub.{Payload}
use tssniff.Hub.Order.{Sub, Sub-remove}
use tssniff.Hub.Clients.{drain_round}
use tssniff.Hub.Clients.Order.{
  Sub-dispatch_to, Sub-drain_round, registered-drain_round, registered-dispatch_to,
}
use tssniff.Http.{
  Connection, connect, unregister_if, cancel, finish, end_when, serve_round, serve_if, offer_to,
  Event, dispatches, drains, serves, cancels, step, run,
}

-- The payloads that were sent and those in the channels are, in this order, among the offered ones;
-- `done` is closed once, when the client leaves the set, and a handler that returned has left.
pub record IsDelivered (k : Connection) : Type 0 where
  pub order : Sub (k.sent ++ (k.client.out ++ k.client.inbox)) k.offered
  pub once : k.client.closes ≡ (if k.client.registered then 0 else 1)
  pub left : k.returned ≡ true → k.client.registered ≡ false

connect-IsDelivered : (id : ℕ) → IsDelivered (connect id)
unfolding connect
connect-IsDelivered id = record { order = tt; once = refl; left = λ e. cc }

-- The two parts that the handler's return does not need.
abbrev Served : Connection → Type 0
Served k =
    Sub (k.sent ++ (k.client.out ++ k.client.inbox)) k.offered
    × (k.client.closes ≡ (if k.client.registered then 0 else 1))

unregister_if-Served :
    (b : Bool) (k : Connection)
    → k.client.registered ≡ b
    → Served k
    → Served (unregister_if b k) × ((unregister_if b k).client.registered ≡ false)
unfolding unregister_if
unregister_if-Served false k e s = (s, e)
unregister_if-Served true k e (o, once) = ((o, ground (arith, e, once)), refl)

cancel-IsDelivered : (k : Connection) → IsDelivered k → IsDelivered (cancel k)
unfolding cancel
cancel-IsDelivered k v =
    let (s, out) = unregister_if-Served k.client.registered k refl (v.order, v.once) in
    record { order = s.0; once = s.1; left = λ e. out }

-- Behind a cancellation `done` is closed.
pub closes-cancel : (k : Connection) → IsDelivered k → 0 < (cancel k).client.closes
unfolding cancel
closes-cancel k v =
    let (s, out) = unregister_if-Served k.client.registered k refl (v.order, v.once) in
    ground (arith, s.1, out)

finish-IsDelivered : (k : Connection) → Served k → IsDelivered (finish k)
unfolding finish cancel
finish-IsDelivered k s =
    let (s', out) =
      unregister_if-Served k.client.registered (record k { returned = true }) refl s in
    record { order = s'.0; once = s'.1; left = λ e. out }

end_when-IsDelivered : (b : Bool) (k : Connection) → IsDelivered k → IsDelivered (end_when b k)
unfolding end_when
end_when-IsDelivered true k v = finish-IsDelivered k (v.order, v.once)
end_when-IsDelivered false k v = v

serve_round-IsDelivered :
    (out : List Payload) (ok : Bool) (k : Connection)
    → k.client.out ≡ out
    → k.returned ≡ false
    → IsDelivered k
    → IsDelivered (serve_round out ok k)
unfolding serve_round
serve_round-IsDelivered [] ok k e still v = end_when-IsDelivered k.client.out_closed k v
serve_round-IsDelivered (p ∷ ps) true k e still v = record {
  order =
      subst (λ xs. Sub xs k.offered) (sym (append_assoc k.sent (p ∷ []) (ps ++ k.client.inbox)))
        (subst (λ out. Sub (k.sent ++ (out ++ k.client.inbox)) k.offered) e v.order);
  once = v.once;
  left = v.left;
}
serve_round-IsDelivered (p ∷ ps) false k e still v =
    finish-IsDelivered (record k { client = record k.client { out = ps } })
      (
        Sub-remove k.sent p (ps ++ k.client.inbox) k.offered
            (subst (λ out. Sub (k.sent ++ (out ++ k.client.inbox)) k.offered) e v.order),
        v.once,
      )

serve_if-IsDelivered :
    (b ok : Bool) (k : Connection) → k.returned ≡ b → IsDelivered k → IsDelivered (serve_if b ok k)
unfolding serve_if
serve_if-IsDelivered true ok k e v = v
serve_if-IsDelivered false ok k e v = serve_round-IsDelivered k.client.out ok k refl e v

offer_to-IsDelivered :
    (b : Bool) (n : ℕ) (payload : Payload) (k : Connection)
    → IsDelivered k
    → IsDelivered (offer_to b n payload k)
unfolding offer_to
offer_to-IsDelivered false n payload k v = v
offer_to-IsDelivered true n payload k v =
    let (reg, closes) = registered-dispatch_to n payload k.client in
    record {
      order = Sub-dispatch_to n payload k.client k.sent k.offered v.order;
      once = rw (reg, closes) v.once;
      left = λ e. rw reg (v.left e);
    }

drain-IsDelivered :
    (m : ℕ) (prefer : Bool) (k : Connection)
    → IsDelivered k
    → IsDelivered (record k { client = drain_round k.client.inbox m prefer k.client })
drain-IsDelivered m prefer k v =
    let (reg, closes) = registered-drain_round k.client.inbox m prefer k.client in
    record {
      order = Sub-drain_round k.client.inbox m prefer k.client k.sent k.offered refl v.order;
      once = rw (reg, closes) v.once;
      left = λ e. rw reg (v.left e);
    }

step-IsDelivered :
    (n m : ℕ) (e : Event) (k : Connection) → IsDelivered k → IsDelivered (step n m e k)
unfolding step
step-IsDelivered n m (dispatches payload) k v =
    offer_to-IsDelivered k.client.registered n payload k v
step-IsDelivered n m (drains prefer) k v = drain-IsDelivered m prefer k v
step-IsDelivered n m (serves ok) k v = serve_if-IsDelivered k.returned ok k refl v
step-IsDelivered n m cancels k v = cancel-IsDelivered k v

pub run_from-IsDelivered :
    (n m : ℕ) (es : List Event) (k : Connection) → IsDelivered k → IsDelivered (run n m es k)
unfolding run
run_from-IsDelivered n m [] k v = v
run_from-IsDelivered n m (e ∷ es) k v =
    run_from-IsDelivered n m es (step n m e k) (step-IsDelivered n m e k v)

-- Whatever payloads are dispatched to the client of a request for the stream, and however the
-- rounds of its handler, with writes that go through or fail, the rounds of drain and the
-- cancellation follow one another: what was sent, what is in `out` and what is in the inbox
-- are, in this order, payloads that were dispatched while the client was in the set, in the
-- order of the dispatches; its `done` is closed once, when it leaves the set; and once the
-- handler has returned, it has left.
pub run-IsDelivered : (n m : ℕ) (es : List Event) (id : ℕ) → IsDelivered (run n m es (connect id))
run-IsDelivered n m es id = run_from-IsDelivered n m es (connect id) (connect-IsDelivered id)
