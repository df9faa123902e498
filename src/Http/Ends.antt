-- ===== src/Http/Ends.antt =====
-- The handler of httpserver.go comes to its end.
use mathlib.Core.List.{append_assoc, append-nil}
use tssniff.Prelude.{
  ℕ, suc, ◌≡◌, refl, sym, ◌∙◌, ap, subst, Bool, true, false, List, [], ◌∷◌, ◌++◌, length, replicate,
}
use tssniff.Hub.{Payload}
use tssniff.Hub.Clients.{drain_round}
use tssniff.Http.{
  Connection, connect, unregister_if, cancel, finish, end_when, serve_round, serve_if, Event,
  drains, serves, cancels, step, run,
}
use tssniff.Http.Delivery.{run-IsDelivered, closes-cancel}
use tssniff.Hub.Clients.Order.{out-drain_round}

-- A round for the payload that comes first.
serve_taken :
    (k : Connection) (p : Payload) (ps : List Payload)
    → k.client.out ≡ p ∷ ps
    → k.returned ≡ false
    → serve_if k.returned true k
      ≡ record k { client = record k.client { out = ps }; sent = k.sent ++ (p ∷ []) }
unfolding serve_if serve_round
serve_taken k p ps e still =
    ap (λ b. serve_if b true k) still ∙ ap (λ out. serve_round out true k) e

-- A round once the channel is empty and closed.
serve_ended :
    (k : Connection)
    → k.client.out ≡ []
    → k.client.out_closed ≡ true
    → k.returned ≡ false
    → serve_if k.returned true k ≡ finish k
unfolding serve_if serve_round end_when
serve_ended k e shut still =
    ap (λ b. serve_if b true k) still
    ∙ ap (λ out. serve_round out true k) e
    ∙ ap (λ b. end_when b k) shut

unregister_if-same :
    (b : Bool) (k : Connection)
    → let k' = unregister_if b k in
      (k'.returned ≡ k.returned) × (k'.sent ≡ k.sent) × (k'.client.out ≡ k.client.out)
unfolding unregister_if
unregister_if-same false k = (refl, refl, refl)
unregister_if-same true k = (refl, refl, refl)

-- What is left in the channel is sent, and the handler returns.
abbrev pub Flushed : Connection → List Payload → Connection → Type 0
Flushed k out k' = (k'.returned ≡ true) × (k'.sent ≡ k.sent ++ out)

-- A handler whose channel is closed writes what is left in it and returns.
serve_rest :
    (n m : ℕ) (out : List Payload) (k : Connection)
    → k.client.out ≡ out
    → k.client.out_closed ≡ true
    → k.returned ≡ false
    → Flushed k out (run n m (replicate (suc (length out)) (serves true)) k)
unfolding run step finish cancel
serve_rest n m [] k e shut still =
    let same = unregister_if-same k.client.registered (record k { returned = true }) in
    subst (Flushed k []) (sym (serve_ended k e shut still))
      (same.0, same.1 ∙ sym (append-nil k.sent))
serve_rest n m (p ∷ ps) k e shut still =
    let k' : Connection = record k {
      client = record k.client { out = ps };
      sent = k.sent ++ (p ∷ []);
    } in
    let (ret, sent) = serve_rest n m ps k' refl shut still in
    subst (λ t. Flushed k (p ∷ ps) (run n m (replicate (suc (length ps)) (serves true)) t))
      (sym (serve_taken k p ps e still)) (ret, sent ∙ append_assoc k.sent (p ∷ []) ps)

-- Once a request for the stream is cancelled and drain takes `done`, a handler that has not
-- returned and whose writes go through returns after as many rounds as there are payloads in
-- `out` and one more, and has sent all of them.
pub serve_cancelled :
    (n m id : ℕ) (es : List Event)
    → let k = run n m es (connect id) in
      k.returned ≡ false
      → Flushed k k.client.out
          (run n m (cancels ∷ drains true ∷ replicate (suc (length k.client.out)) (serves true)) k)
unfolding run step cancel
serve_cancelled n m id es still =
    let k = run n m es (connect id) in
    let v = run-IsDelivered n m es id in
    let same = unregister_if-same k.client.registered k in
    let c = (unregister_if k.client.registered k).client in
    let done = out-drain_round c.inbox m c (closes-cancel k v) in
    let (ret, sent) =
      serve_rest n m k.client.out
        (record (unregister_if k.client.registered k) { client = drain_round c.inbox m true c })
        (done.1 ∙ same.2) done.0 (same.0 ∙ still) in
    (ret, sent ∙ ap (λ xs. xs ++ k.client.out) same.1)
