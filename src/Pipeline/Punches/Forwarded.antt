-- ===== src/Pipeline/Punches/Forwarded.antt =====
-- What becomes of a punch request on its way to the writer.
use tssniff.Prelude.{
  ◌≤◌, ◌≡◌, ◌⊎◌, refl, true, not, ◌||◌, List, [], ◌∷◌, ◌++◌, arith, ltb, length, inl, inr,
  Bool-cases,
}
use tssniff.Events.{PunchRequest}
use tssniff.Writer.Loop.{Loop, submit_punch, writer_queue_depth}
use tssniff.Pipeline.Punches.{Forwarder, handed, forward_from, forward}

-- Why the writer's queue refuses a request.
why :
    (l : Loop)
    → (l.punch_closed || not (ltb (length l.punches) writer_queue_depth)) ≡ true
    → (l.punch_closed ≡ true) ⊎ (writer_queue_depth ≤ length l.punches)
why l t = elim (Bool-cases l.punch_closed) [ inl e ↦ inl e | inr e ↦ inr (ground (arith, e)) ]

-- The writer's queue takes the request behind the others, or does not change and the request is
-- lost: then the queue is full or closed.
pub forward-cases :
    (f : Forwarder) (p : PunchRequest) (ps : List PunchRequest)
    → f.punches ≡ p ∷ ps
    → let g = forward f in
      (g.loop.punches ≡ f.loop.punches ++ (p ∷ []))
      ⊎ ((g.loop ≡ f.loop)
          × (g.refused ≡ f.refused ++ (p ∷ []))
          × ((f.loop.punch_closed ≡ true) ⊎ (writer_queue_depth ≤ length f.loop.punches)))
unfolding forward forward_from handed submit_punch
forward-cases f p ps e =
    elim (Bool-cases
      (f.loop.punch_closed || not (ltb (length f.loop.punches) writer_queue_depth))) [
        | inl t ↦ rw (e, t) (inr (refl, refl, why f.loop t))
        | inr t ↦ rw (e, t) (inl refl)
      ]
