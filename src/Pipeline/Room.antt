-- ===== src/Pipeline/Room.antt =====
-- How many writes the dispatcher of pipeline.go sends to the sniffer, whose channel is bounded: no
-- more than arrived. While these are at most its depth, every send of `dispatchWrite` finds room,
-- whatever the sniffer has taken.
use tssniff.Prelude.{
  ℕ, zero, suc, ◌+◌, ◌≤◌, ◌<◌, ◌≡◌, Bool, true, false, List, [], ◌∷◌, Option, some, none, arith,
  ltb, ◌==◌, ◌&&◌, length, length-append, inl, inr, Bool-cases, Option-cases,
}
use tssniff.Events.{WriteEvent}
use tssniff.Pipeline.{
  Pending, Dispatcher, start, lookup, insert, delete, dispatch_write, dispatch_next, release_run,
  accept_write, accept_all, drain_until,
}

-- The writes that were sent and those that wait for a number before theirs.
abbrev pub taken : Dispatcher → ℕ
taken d = length d.to_sniffer + length d.pending

length-insert : (k : ℕ) (e : WriteEvent) (m : Pending) → length (insert k e m) ≤ suc (length m)
unfolding insert
length-insert k e [] = omega arith
length-insert k e ((j, f) ∷ m) = ground (arith, length-insert k e m)

length-delete : (k : ℕ) (m : Pending) → length (delete k m) ≤ length m
unfolding delete
length-delete k [] = omega arith
length-delete k ((j, f) ∷ m) = ground (arith, length-delete k m)

length-delete_found :
    (k : ℕ) (m : Pending) {e : WriteEvent} → lookup k m ≡ some e → length (delete k m) < length m
unfolding delete lookup
length-delete_found k [] h = cc
length-delete_found k ((j, f) ∷ m) h = elim (Bool-cases (j == k)) [
  | inl t ↦ rw t (omega (arith, length-delete k m))
  | inr t ↦ rw t (let less = length-delete_found k m (rw t at h) in omega (arith, less))
]

release_run-taken :
    (fuel : ℕ) (ev : WriteEvent) (d : Dispatcher) → taken (release_run fuel ev d) ≤ suc (taken d)
unfolding release_run dispatch_next dispatch_write
release_run-taken zero ev d = let more = length-append d.to_sniffer (ev ∷ []) in omega (arith, more)
release_run-taken (suc fuel) ev d =
    let more = length-append d.to_sniffer (ev ∷ []) in
    elim (Option-cases (lookup (d.next_seq + 1) d.pending)) [
      | inl e ↦ rw (e, release_run) (omega (arith, more))
      | inr (next, e) ↦
          let less = length-delete_found (d.next_seq + 1) d.pending e in
          rw (e, release_run)
            (let rest =
                release_run-taken fuel next
                  (record (dispatch_next ev d) { pending = delete (d.next_seq + 1) d.pending }) in
              omega (arith, more, less, rest))
    ]

accept_write-taken : (ev : WriteEvent) (d : Dispatcher) → taken (accept_write ev d) ≤ suc (taken d)
unfolding accept_write
accept_write-taken ev d =
    ground
      (arith, length-insert ev.seq ev d.pending, release_run-taken (suc (length d.pending)) ev d)

pub accept_all-taken :
    (es : List WriteEvent) (d : Dispatcher) → taken (accept_all es d) ≤ length es + taken d
unfolding accept_all
accept_all-taken [] d = omega arith
accept_all-taken (e ∷ es) d =
    let one = accept_write-taken e d in
    let rest = accept_all-taken es (accept_write e d) in omega (arith, one, rest)

pub sends_few : (es : List WriteEvent) → length (accept_all es start).to_sniffer ≤ length es
unfolding start
sends_few es = omega (arith, accept_all-taken es start)

-- Where the loop of `handleBarrier` ends, it has taken at most `n` writes.
abbrev pub TakesAtMost : ℕ → Option Dispatcher → Type 0
TakesAtMost n none = Unit {0}
TakesAtMost n (some d) = taken d ≤ n

TakesAtMost-mono : (m n : ℕ) (o : Option Dispatcher) → m ≤ n → TakesAtMost m o → TakesAtMost n o
TakesAtMost-mono m n none h t = tt
TakesAtMost-mono m n (some d) h t = omega (arith, h, t)

pub drain_until-TakesAtMost :
    (target : ℕ) (es : List WriteEvent) (closed : Bool) (d : Dispatcher)
    → TakesAtMost (length es + taken d) (drain_until target es closed d)
unfolding drain_until
drain_until-TakesAtMost target [] true d =
    elim (Bool-cases (ltb d.dispatched_seq target && d.writes_open)) [
      | inl t ↦ rw t (omega arith)
      | inr t ↦ rw t (omega arith)
    ]
drain_until-TakesAtMost target [] false d =
    elim (Bool-cases (ltb d.dispatched_seq target && d.writes_open)) [
      | inl t ↦ rw t tt
      | inr t ↦ rw t (omega arith)
    ]
drain_until-TakesAtMost target (e ∷ es) closed d =
    elim (Bool-cases (ltb d.dispatched_seq target && d.writes_open)) [
      | inl t ↦ rw t (
          TakesAtMost-mono (length es + taken (accept_write e d)) (suc (length es) + taken d) _
            (omega (arith, accept_write-taken e d))
            (drain_until-TakesAtMost target es closed (accept_write e d)))
      | inr t ↦ rw t (omega arith)
    ]
