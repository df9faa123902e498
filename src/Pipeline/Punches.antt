-- ===== src/Pipeline/Punches.antt =====
-- SubmitPunch and ClosePunches of pipeline.go, and runPunches, which hands the requests on to the
-- writer's loop.
pub mod Forwarded
use tssniff.Prelude.{
  ℕ, Bool, true, false, not, ◌||◌, List, [], ◌∷◌, ◌++◌, ltb, if◌then◌else◌, length,
}
use tssniff.Events.{PunchRequest}
use tssniff.Writer.Loop.{Loop, submit_punch, closes_punch_input, step}

abbrev pub pipeline_punch_depth : ℕ
pipeline_punch_depth = 8192

-- The channel `punches`, the loop that runPunches is, and the writer's loop. What SubmitPunch took
-- and what the writer's queue refused is kept beside them.
pub record Forwarder : Type 0 where
  pub punches : List PunchRequest
  pub closed : Bool
  pub ended : Bool
  pub loop : Loop
  pub taken : List PunchRequest
  pub refused : List PunchRequest

-- `SubmitPunch` of the pipeline, with whether the request was taken.
pub submit : PunchRequest → Forwarder → Bool × Forwarder
submit p f =
    if f.closed || not (ltb (length f.punches) pipeline_punch_depth)
    then (false, f)
    else (true, record f { punches = f.punches ++ (p ∷ []); taken = f.taken ++ (p ∷ []) })

-- `ClosePunches`
pub close_punches : Forwarder → Forwarder
close_punches f = record f { closed = true }

-- What runPunches does with the answer of the writer's SubmitPunch: nothing.
pub handed : PunchRequest → Bool × Loop → Forwarder → Forwarder
handed p (true, l) f = record f { loop = l }
handed p (false, l) f = record f { loop = l; refused = f.refused ++ (p ∷ []) }

-- A round of runPunches, for what its channel holds, and its end.
pub forward_from : List PunchRequest → Forwarder → Forwarder
forward_from [] f =
    if f.closed then record f { ended = true; loop = step closes_punch_input f.loop } else f
forward_from (p ∷ ps) f = handed p (submit_punch p f.loop) (record f { punches = ps })

pub forward : Forwarder → Forwarder
forward f = forward_from f.punches f
