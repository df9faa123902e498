-- ===== src/Hub/Clients/Valid.antt =====
-- The invariant of the clients of hub.go.
use tssniff.Prelude.{
  ℕ, zero, suc, ◌+◌, ◌≤◌, ◌<◌, ◌≡◌, refl, Bool, true, false, ◌||◌, ◌&&◌, List, [], ◌∷◌, ◌++◌, arith,
  ltb, ◌==◌, if◌then◌else◌, length, drop, length-append, inl, inr, Bool-cases,
}
use tssniff.Hub.{Payload}
use tssniff.Hub.Clients.{
  Client, register, unregister, offer, dispatch_to, dispatch, push, drain_round, drain, Event,
  registers, unregisters, dispatches, drains, step, run,
}

-- A client is in the set until its `done` is closed, once; its channels hold no more than their
-- depths.
pub record IsValid (n m : ℕ) (c : Client) : Type 0 where
  pub once : c.closes ≡ (if c.registered then 0 else 1)
  pub inbox_fits : length c.inbox ≤ n
  pub out_fits : length c.out ≤ m

abbrev pub AllValid : ℕ → ℕ → List Client → Type 0
AllValid n m [] = Unit {0}
AllValid n m (c ∷ cs) = IsValid n m c × AllValid n m cs

unregister-AllValid :
    (n m id : ℕ) (cs : List Client) → AllValid n m cs → AllValid n m (unregister id cs)
unfolding unregister
unregister-AllValid n m id [] v = tt
unregister-AllValid n m id (c ∷ cs) (v, vs) = elim (Bool-cases (c.id == id && c.registered)) [
  | inl e ↦ rw e (
    record {
      once = let a = v.once in ground arith;
      inbox_fits = v.inbox_fits;
      out_fits = v.out_fits;
    },
    unregister-AllValid n m id cs vs,
  )
  | inr e ↦ rw e (v, unregister-AllValid n m id cs vs)
]

length-drop_one : (xs : List Payload) → length (drop 1 xs) + 1 ≤ length xs + 1
length-drop_one [] = omega arith
length-drop_one (x ∷ xs) = omega arith

length-offer :
    (n : ℕ) (payload : Payload) (items : List Payload)
    → length items ≤ n
    → length (offer n payload items) ≤ n
unfolding offer
length-offer n payload items h = ground (
  arith,
  length-append items (payload ∷ []),
  length-append (drop 1 items) (payload ∷ []),
  length-drop_one items,
)

dispatch_to-IsValid :
    (b : Bool) (n m : ℕ) (payload : Payload) (c : Client)
    → IsValid n m c
    → IsValid n m (dispatch_to b n payload c)
unfolding dispatch_to
dispatch_to-IsValid false n m payload c v = v
dispatch_to-IsValid true n m payload c v = record {
  once = v.once;
  inbox_fits = length-offer n payload c.inbox v.inbox_fits;
  out_fits = v.out_fits;
}

dispatch-AllValid :
    (n m : ℕ) (payload : Payload) (cs : List Client)
    → AllValid n m cs
    → AllValid n m (dispatch n payload cs)
unfolding dispatch
dispatch-AllValid n m payload [] v = tt
dispatch-AllValid n m payload (c ∷ cs) (v, vs) =
    (dispatch_to-IsValid c.registered n m payload c v, dispatch-AllValid n m payload cs vs)

length-push :
    (fuel n : ℕ) (payload : Payload) (out : List Payload)
    → length out ≤ n
    → length (push fuel n payload out) ≤ n
unfolding push
length-push zero n payload out h = h
length-push (suc fuel) n payload out h = ground (
  arith,
  length-append out (payload ∷ []),
  length-drop_one out,
  length-push fuel n payload (drop 1 out),
)

drain_round-IsValid :
    (items : List Payload) (n m : ℕ) (prefer : Bool) (c : Client)
    → length items ≤ n
    → IsValid n m c
    → IsValid n m (drain_round items m prefer c)
unfolding drain_round
drain_round-IsValid [] n m prefer c h v = record {
  once = v.once;
  inbox_fits = v.inbox_fits;
  out_fits = v.out_fits;
}
drain_round-IsValid (p ∷ ps) n m prefer c h v =
    elim (Bool-cases (c.out_closed || ltb 0 c.closes && prefer)) [
      | inl e ↦ rw e (record { once = v.once; inbox_fits = v.inbox_fits; out_fits = v.out_fits })
      | inr e ↦ rw e (record {
        once = v.once;
        inbox_fits = omega arith;
        out_fits = length-push (length c.out + 1) m p c.out v.out_fits;
      })
    ]

drain-AllValid :
    (n m id : ℕ) (prefer : Bool) (cs : List Client)
    → AllValid n m cs
    → AllValid n m (drain m id prefer cs)
unfolding drain
drain-AllValid n m id prefer [] v = tt
drain-AllValid n m id prefer (c ∷ cs) (v, vs) = elim (Bool-cases (c.id == id)) [
  | inl e ↦
      rw e (
        drain_round-IsValid c.inbox n m prefer c v.inbox_fits v,
        drain-AllValid n m id prefer cs vs,
      )
  | inr e ↦ rw e (v, drain-AllValid n m id prefer cs vs)
]

step-AllValid :
    (n m : ℕ) (e : Event) (cs : List Client) → AllValid n m cs → AllValid n m (step n m e cs)
unfolding step register
step-AllValid n m (registers id) cs v =
    (record { once = refl; inbox_fits = omega arith; out_fits = omega arith }, v)
step-AllValid n m (unregisters id) cs v = unregister-AllValid n m id cs v
step-AllValid n m (dispatches payload) cs v = dispatch-AllValid n m payload cs v
step-AllValid n m (drains id prefer) cs v = drain-AllValid n m id prefer cs v

-- Whatever registrations, unregistrations, dispatches and rounds of drain follow one another,
-- in whatever order, each client is in the set until its `done` is closed, which happens once
-- at most, and its two channels hold no more than their depths, if that held before.
pub run-AllValid :
    (n m : ℕ) (es : List Event) (cs : List Client) → AllValid n m cs → AllValid n m (run n m es cs)
unfolding run
run-AllValid n m [] cs v = v
run-AllValid n m (e ∷ es) cs v = run-AllValid n m es (step n m e cs) (step-AllValid n m e cs v)

-- The inner loop of `drain` sends the payload, last in the channel, if the channel has room for one
-- at all.
pub push_lem :
    (fuel n : ℕ) (payload : Payload) (out : List Payload)
    → 0 < n
    → length out < fuel
    → (kept : List Payload) × (push fuel n payload out ≡ kept ++ (payload ∷ []))
unfolding push
push_lem zero n payload out p h = absurd (omega arith)
push_lem (suc fuel) n payload [] p h = ([], ground arith)
push_lem (suc fuel) n payload (x ∷ out) p h = elim (Bool-cases (ltb (suc (length out)) n)) [
  | inl e ↦ (x ∷ out, rw e refl)
  | inr e ↦ let (kept, made) = push_lem fuel n payload out p (omega arith) in (kept, rw e made)
]
