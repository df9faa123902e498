-- ===== src/Writer/Loop/Ends.antt =====
-- How much the writer's loop has left to do.
use tssniff.Prelude.{
  ℕ, ◌+◌, ◌*◌, ◌≤◌, ◌<◌, ◌≡◌, ◌≢◌, ◌⊎◌, refl, Bool, true, not, ◌||◌, ◌&&◌, List, [], ◌∷◌, arith,
  if◌then◌else◌, length, inl, inr, Bool-cases,
}
use tssniff.Events.{PunchRequest}
use tssniff.Writer.Loop.{
  Command, Os, Phase, draining, waiting, returned, Loop, take_command, take_punch, is_ready,
  move_in, move, Event, moves, step, run,
}

abbrev of_phase : Phase → ℕ
of_phase draining = 2
of_phase waiting = 1
of_phase returned = 0

abbrev of_flag : Bool → ℕ
of_flag live = if live then 2 else 0

-- What is left to do: two for each entry that waits and for each channel not seen closed, and what
-- the phase takes.
abbrev pub left : Loop → ℕ
left l =
    2 * length l.commands
    + 2 * length l.punches
    + of_flag l.in_live
    + of_flag l.punch_live
    + of_phase l.phase

-- Both inputs are closed.
abbrev pub IsClosed : Loop → Type 0
IsClosed l = (l.in_closed ≡ true) × (l.punch_closed ≡ true)

-- A receive takes away from the rest, whatever the phase gives back.
take_command-left :
    (os : Os) (l : Loop) (cs : List Command)
    → l.commands ≡ cs
    → l.in_live ≡ true
    → 1 ≤ of_phase l.phase
    → IsClosed l
    → (left (take_command os l) < left l) × IsClosed (take_command os l)
unfolding take_command
take_command-left os l [] e live p c = rw (e, live) (omega (arith, p), c)
take_command-left os l (x ∷ cs) e live p c = rw (e, live) (omega (arith, p), c)

take_punch-left :
    (os : Os) (l : Loop) (ps : List PunchRequest)
    → l.punches ≡ ps
    → l.punch_live ≡ true
    → 1 ≤ of_phase l.phase
    → IsClosed l
    → (left (take_punch os l) < left l) × IsClosed (take_punch os l)
unfolding take_punch
take_punch-left os l [] e live p c = rw (e, live) (omega (arith, p), c)
take_punch-left os l (x ∷ ps) e live p c = rw (e, live) (omega (arith, p), c)

move_in-left :
    (p : Phase) (prefer : Bool) (os : Os) (l : Loop)
    → l.phase ≡ p
    → p ≢ returned
    → IsClosed l
    → (left (move_in p prefer os l) < left l) × IsClosed (move_in p prefer os l)
unfolding move_in
move_in-left draining prefer os l e q c =
    let weight : of_phase l.phase ≡ 2 = rw e refl in
    elim (Bool-cases (l.in_live && is_ready l.commands l.in_closed)) [
      | inl t ↦
          rw t (take_command-left os l l.commands refl (ground arith) (omega (arith, weight)) c)
      | inr t ↦ rw t (omega (arith, weight), c)
    ]
move_in-left waiting prefer os l e q c =
    let weight : of_phase l.phase ≡ 1 = rw e refl in
    let command_ready = l.in_live && is_ready l.commands l.in_closed in
    let punch_ready = l.punch_live && is_ready l.punches l.punch_closed in
    elim (Bool-cases (not l.in_live && not l.punch_live)) [
      | inl t ↦ rw t (omega (arith, weight), c)
      | inr t ↦ elim (Bool-cases (command_ready && (prefer || not punch_ready))) [
        | inl f ↦
            rw (t, f)
              (take_command-left os l l.commands refl (ground arith) (omega (arith, weight)) c)
        | inr f ↦
            let (a, b) = c in
            let g : punch_ready ≡ true = ground arith in
            rw (t, f, g)
              (take_punch-left os l l.punches refl (ground arith) (omega (arith, weight)) c)
      ]
    ]
move_in-left returned prefer os l e q c = absurd (q refl)

-- Steps of the loop alone.
abbrev pub all_moves : List (Bool × Os) → List Event
all_moves [] = []
all_moves ((prefer, os) ∷ ms) = moves prefer os ∷ all_moves ms

move_in_stays :
    (p : Phase) (prefer : Bool) (os : Os) (l : Loop)
    → l.phase ≡ p
    → p ≡ returned
    → (move_in p prefer os l).phase ≡ returned
unfolding move_in
move_in_stays draining prefer os l e r = cc
move_in_stays waiting prefer os l e r = cc
move_in_stays returned prefer os l e r = e

Phase-cases : (p : Phase) → (p ≡ returned) ⊎ (p ≢ returned)
Phase-cases draining = inr (λ e. cc)
Phase-cases waiting = inr (λ e. cc)
Phase-cases returned = inl refl

of_phase_zero : (p : Phase) → of_phase p ≤ 0 → p ≡ returned
of_phase_zero draining h = absurd (omega arith)
of_phase_zero waiting h = absurd (omega arith)
of_phase_zero returned h = refl

returned_stays :
    (ms : List (Bool × Os)) (l : Loop)
    → l.phase ≡ returned
    → (run (all_moves ms) l).phase ≡ returned
unfolding run step move move_in
returned_stays [] l e = e
returned_stays ((prefer, os) ∷ ms) l e =
    returned_stays ms (move_in l.phase prefer os l) (move_in_stays l.phase prefer os l refl e)

-- Once both inputs are closed, the writer's loop has returned after as many of its steps as
-- there is left to do (two for each entry that waits and for each channel not seen closed, and
-- what the phase takes), whichever channel it prefers in each and whatever the calls return.
pub run-closed_returns :
    (ms : List (Bool × Os)) (l : Loop)
    → IsClosed l
    → left l ≤ length ms
    → (run (all_moves ms) l).phase ≡ returned
unfolding run step move
run-closed_returns [] l c h = of_phase_zero l.phase (omega (arith, h))
run-closed_returns ((prefer, os) ∷ ms) l c h = elim (Phase-cases l.phase) [
  | inl e ↦ returned_stays ((prefer, os) ∷ ms) l e
  | inr q ↦
      let (less, c') = move_in-left l.phase prefer os l refl q c in
      run-closed_returns ms (move_in l.phase prefer os l) c' (omega (arith, less, h))
]
