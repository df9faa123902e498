-- ===== src/Pipeline/Handover.antt =====
-- The dispatcher of pipeline.go while it is inside acceptWrite or handleBarrier, and the loop of
-- sniffer.go. It sends to the sniffer's input and receives nothing from its output until it is back
-- in its `select`; both channels have the depth `n`.
use tssniff.Prelude.{
  ℕ, suc, ◌+◌, ◌*◌, ◌≤◌, ◌<◌, ◌≡◌, refl, List, [], ◌∷◌, ◌++◌, Option, none, some, arith, ltb,
  if◌then◌else◌, length, length-append, inl, inr, Bool-cases, ap,
}
use tssniff.Events.{WriteEvent}

abbrev pub sniffer_queue_depth : ℕ
sniffer_queue_depth = 1024

-- The writes that the dispatcher has to send before it is back, the channel `in`, the write that
-- the sniffer works on, and the writes of the channel `out`.
pub record Handover : Type 0 where
  pub left : List WriteEvent
  pub input : List WriteEvent
  pub hand : Option WriteEvent
  pub output : List WriteEvent

-- `p.sniffer.Input() <- ev`, which waits while the channel is full.
dispatch_one : ℕ → List WriteEvent → Handover → Handover
dispatch_one n [] h = h
dispatch_one n (ev ∷ evs) h =
    if ltb (length h.input) n then record h { left = evs; input = h.input ++ (ev ∷ []) } else h

-- The receive of the sniffer's loop.
take_one : Option WriteEvent → List WriteEvent → Handover → Handover
take_one none [] h = h
take_one none (ev ∷ evs) h = record h { input = evs; hand = some ev }
take_one (some busy) evs h = h

-- `s.out <- ...`, which waits while the channel is full.
give_one : ℕ → Option WriteEvent → Handover → Handover
give_one n none h = h
give_one n (some ev) h =
    if ltb (length h.output) n then record h { hand = none; output = h.output ++ (ev ∷ []) } else h

-- Whose turn it is.
pub data Turn : Type 0 where
  dispatches takes gives : Turn

step : ℕ → Turn → Handover → Handover
unfolding dispatch_one take_one give_one
step n dispatches h = dispatch_one n h.left h
step n takes h = take_one h.hand h.input h
step n gives h = give_one n h.hand h

pub run : ℕ → List Turn → Handover → Handover
unfolding step
run n [] h = h
run n (t ∷ ts) h = run n ts (step n t h)

abbrev pub in_hand : Option WriteEvent → ℕ
in_hand none = 0
in_hand (some ev) = 1

-- The writes of all four places.
abbrev pub total : Handover → ℕ
total h = length h.left + length h.input + in_hand h.hand + length h.output

-- No write is lost, and no channel is over its depth.
record Fits (n k : ℕ) (h : Handover) : Type 0 where
  all : total h ≡ k
  input_fits : length h.input ≤ n
  output_fits : length h.output ≤ n

dispatch_one-Fits :
    (n k : ℕ) (evs : List WriteEvent) (h : Handover)
    → h.left ≡ evs
    → Fits n k h
    → Fits n k (dispatch_one n evs h)
unfolding dispatch_one
dispatch_one-Fits n k [] h e v = v
dispatch_one-Fits n k (ev ∷ evs) h e v = elim (Bool-cases (ltb (length h.input) n)) [
  | inl room ↦ rw room (record {
    all =
        let sum = v.all in
        let more = length-append h.input (ev ∷ []) in
        let before = ap length e in omega (arith, sum, more, before);
    input_fits = let more = length-append h.input (ev ∷ []) in ground (arith, room, more);
    output_fits = v.output_fits;
  })
  | inr room ↦ rw room v
]

take_one-Fits :
    (n k : ℕ) (hand : Option WriteEvent) (evs : List WriteEvent) (h : Handover)
    → h.hand ≡ hand
    → h.input ≡ evs
    → Fits n k h
    → Fits n k (take_one hand evs h)
unfolding take_one
take_one-Fits n k none [] h e f v = v
take_one-Fits n k (some busy) evs h e f v = v
take_one-Fits n k none (ev ∷ evs) h e f v =
    let empty : in_hand h.hand ≡ 0 = ap in_hand e in
    let before : length h.input ≡ suc (length evs) = ap length f in
    record {
      all = let sum = v.all in omega (arith, sum, empty, before);
      input_fits = let fits = v.input_fits in omega (arith, fits, before);
      output_fits = v.output_fits;
    }

give_one-Fits :
    (n k : ℕ) (hand : Option WriteEvent) (h : Handover)
    → h.hand ≡ hand
    → Fits n k h
    → Fits n k (give_one n hand h)
unfolding give_one
give_one-Fits n k none h e v = v
give_one-Fits n k (some ev) h e v = elim (Bool-cases (ltb (length h.output) n)) [
  | inl room ↦
      let one : in_hand h.hand ≡ 1 = ap in_hand e in
      let more = length-append h.output (ev ∷ []) in
      rw room (record {
        all = let sum = v.all in omega (arith, sum, one, more);
        input_fits = v.input_fits;
        output_fits = ground (arith, room, more);
      })
  | inr room ↦ rw room v
]

step-Fits : (n k : ℕ) (t : Turn) (h : Handover) → Fits n k h → Fits n k (step n t h)
unfolding step
step-Fits n k dispatches h v = dispatch_one-Fits n k h.left h refl v
step-Fits n k takes h v = take_one-Fits n k h.hand h.input h refl refl v
step-Fits n k gives h v = give_one-Fits n k h.hand h refl v

run-Fits : (n k : ℕ) (ts : List Turn) (h : Handover) → Fits n k h → Fits n k (run n ts h)
unfolding run
run-Fits n k [] h v = v
run-Fits n k (t ∷ ts) h v = run-Fits n k ts (step n t h) (step-Fits n k t h v)

in_hand-le : (o : Option WriteEvent) → in_hand o ≤ 1
in_hand-le none = omega arith
in_hand-le (some ev) = omega arith

-- While the dispatcher has writes to send before it is back in its `select`, and these, the
-- writes in the two channels of depth n and the one that the sniffer works on are more than 2 n
-- + 1, it never comes back, whatever the dispatcher and the sniffer do and in whatever order.
pub run-blocked :
    (n : ℕ) (ts : List Turn) (h : Handover)
    → length h.input ≤ n
    → length h.output ≤ n
    → 2 * n + 1 < total h
    → 0 < length (run n ts h).left
run-blocked n ts h i o more =
    let v = run-Fits n (total h) ts h (record { all = refl; input_fits = i; output_fits = o }) in
    let sum = v.all in
    let a = v.input_fits in
    let b = v.output_fits in
    let one = in_hand-le (run n ts h).hand in omega (arith, sum, a, b, one, more)
