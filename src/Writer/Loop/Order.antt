-- ===== src/Writer/Loop/Order.antt =====
-- The order in which the writer's loop handles what was sent.
use tssniff.Prelude.{
  ◌≡◌, refl, ◌∙◌, ap, Bool, true, false, not, ◌||◌, ◌&&◌, List, [], ◌∷◌, ◌++◌, arith, ltb, length,
  inl, inr, Bool-cases,
}
use tssniff.Events.{PunchRequest}
use tssniff.Writer.{Writer}
use tssniff.Writer.Loop.{
  Command, Os, Phase, draining, waiting, returned, Loop, new_loop, take_command, take_punch,
  is_ready, move_in, move, writer_queue_depth, send_command, submit_punch, Event, sends, submits,
  closes_input, closes_punch_input, moves, step, run,
}

-- What was sent is what was handled and what still waits, in this order, for both channels; a channel
-- that the loop is done with was closed and is empty, and the loop that returned is done with both.
pub record IsOrderly (l : Loop) : Type 0 where
  pub in_order : l.sent_commands ≡ l.handled_commands ++ l.commands
  pub punches_in_order : l.sent_punches ≡ l.handled_punches ++ l.punches
  pub in_done : l.in_live ≡ false → (l.in_closed ≡ true) × (l.commands ≡ [])
  pub punch_done : l.punch_live ≡ false → (l.punch_closed ≡ true) × (l.punches ≡ [])
  pub all_done : l.phase ≡ returned → (l.in_live ≡ false) × (l.punch_live ≡ false)

-- An entry moves from the front of the queue to the end of what was handled.
shift {ℓ} :
    {A : Type ℓ} (xs : List A) (y : A) (ys : List A) → xs ++ (y ∷ ys) ≡ (xs ++ (y ∷ [])) ++ ys
shift [] y ys = refl
shift (x ∷ xs) y ys = ap (◌∷◌ x) (shift xs y ys)

append_nil {ℓ} : {A : Type ℓ} (xs : List A) → xs ++ [] ≡ xs
append_nil [] = refl
append_nil (x ∷ xs) = ap (◌∷◌ x) (append_nil xs)

append_assoc {ℓ} : {A : Type ℓ} (xs ys zs : List A) → (xs ++ ys) ++ zs ≡ xs ++ (ys ++ zs)
append_assoc [] ys zs = refl
append_assoc (x ∷ xs) ys zs = ap (◌∷◌ x) (append_assoc xs ys zs)

take_command-IsOrderly :
    (os : Os) (l : Loop) (cs : List Command)
    → l.commands ≡ cs
    → l.in_live ≡ true
    → is_ready l.commands l.in_closed ≡ true
    → IsOrderly l
    → IsOrderly (take_command os l)
unfolding take_command
take_command-IsOrderly os l [] e live ready v =
    let closed : l.in_closed ≡ true = ground (arith, e, ready) in
    rw e (record {
      in_order = v.in_order ∙ ap (◌++◌ l.handled_commands) e;
      punches_in_order = v.punches_in_order;
      in_done = λ h. (closed, refl);
      punch_done = v.punch_done;
      all_done = λ h. cc;
    })
take_command-IsOrderly os l (c ∷ cs) e live ready v = rw e (record {
  in_order = v.in_order ∙ ap (◌++◌ l.handled_commands) e ∙ shift l.handled_commands c cs;
  punches_in_order = v.punches_in_order;
  in_done = λ h. cc;
  punch_done = v.punch_done;
  all_done = λ h. cc;
})

take_punch-IsOrderly :
    (os : Os) (l : Loop) (ps : List PunchRequest)
    → l.punches ≡ ps
    → l.punch_live ≡ true
    → is_ready l.punches l.punch_closed ≡ true
    → IsOrderly l
    → IsOrderly (take_punch os l)
unfolding take_punch
take_punch-IsOrderly os l [] e live ready v =
    let closed : l.punch_closed ≡ true = ground (arith, e, ready) in
    rw e (record {
      in_order = v.in_order;
      punches_in_order = v.punches_in_order ∙ ap (◌++◌ l.handled_punches) e;
      in_done = v.in_done;
      punch_done = λ h. (closed, refl);
      all_done = λ h. cc;
    })
take_punch-IsOrderly os l (c ∷ cs) e live ready v = rw e (record {
  in_order = v.in_order;
  punches_in_order =
      v.punches_in_order ∙ ap (◌++◌ l.handled_punches) e ∙ shift l.handled_punches c cs;
  in_done = v.in_done;
  punch_done = λ h. cc;
  all_done = λ h. cc;
})

move_in-IsOrderly :
    (p : Phase) (prefer : Bool) (os : Os) (l : Loop)
    → IsOrderly l
    → IsOrderly (move_in p prefer os l)
unfolding move_in
move_in-IsOrderly draining prefer os l v =
    elim (Bool-cases (l.in_live && is_ready l.commands l.in_closed)) [
      | inl t ↦ rw t (take_command-IsOrderly os l l.commands refl (ground arith) (ground arith) v)
      | inr t ↦ rw t (record {
        in_order = v.in_order;
        punches_in_order = v.punches_in_order;
        in_done = v.in_done;
        punch_done = v.punch_done;
        all_done = λ h. cc;
      })
    ]
move_in-IsOrderly waiting prefer os l v =
    let command_ready = l.in_live && is_ready l.commands l.in_closed in
    let punch_ready = l.punch_live && is_ready l.punches l.punch_closed in
    elim (Bool-cases (not l.in_live && not l.punch_live)) [
      | inl t ↦ rw t (record {
        in_order = v.in_order;
        punches_in_order = v.punches_in_order;
        in_done = v.in_done;
        punch_done = v.punch_done;
        all_done = λ h. (ground arith, ground arith);
      })
      | inr t ↦ elim (Bool-cases (command_ready && (prefer || not punch_ready))) [
        | inl f ↦
            rw (t, f) (take_command-IsOrderly os l l.commands refl (ground arith) (ground arith) v)
        | inr f ↦ elim (Bool-cases punch_ready) [
          | inl g ↦
              rw (t, f, g)
                (take_punch-IsOrderly os l l.punches refl (ground arith) (ground arith) v)
          | inr g ↦ rw (t, f, g) v
        ]
      ]
    ]
move_in-IsOrderly returned prefer os l v = v

send_command-IsOrderly : (c : Command) (l : Loop) → IsOrderly l → IsOrderly (send_command c l)
unfolding send_command
send_command-IsOrderly c l v =
    elim (Bool-cases (l.in_closed || not (ltb (length l.commands) writer_queue_depth))) [
      | inl t ↦ rw t v
      | inr t ↦ rw t (record {
        in_order =
            ap (λ k. k ++ (c ∷ [])) v.in_order
            ∙ append_assoc l.handled_commands l.commands (c ∷ []);
        punches_in_order = v.punches_in_order;
        in_done = λ h. let a = (v.in_done h).0 in absurd (ground arith);
        punch_done = v.punch_done;
        all_done = v.all_done;
      })
    ]

submit_punch-IsOrderly :
    (p : PunchRequest) (l : Loop) → IsOrderly l → IsOrderly (submit_punch p l).1
unfolding submit_punch
submit_punch-IsOrderly p l v =
    elim (Bool-cases (l.punch_closed || not (ltb (length l.punches) writer_queue_depth))) [
      | inl t ↦ rw t v
      | inr t ↦ rw t (record {
        in_order = v.in_order;
        punches_in_order =
            ap (λ k. k ++ (p ∷ [])) v.punches_in_order
            ∙ append_assoc l.handled_punches l.punches (p ∷ []);
        in_done = v.in_done;
        punch_done = λ h. let a = (v.punch_done h).0 in absurd (ground arith);
        all_done = v.all_done;
      })
    ]

step-IsOrderly : (e : Event) (l : Loop) → IsOrderly l → IsOrderly (step e l)
unfolding step move
step-IsOrderly (sends c) l v = send_command-IsOrderly c l v
step-IsOrderly (submits p) l v = submit_punch-IsOrderly p l v
step-IsOrderly closes_input l v = record {
  in_order = v.in_order;
  punches_in_order = v.punches_in_order;
  in_done = λ h. (refl, (v.in_done h).1);
  punch_done = v.punch_done;
  all_done = v.all_done;
}
step-IsOrderly closes_punch_input l v = record {
  in_order = v.in_order;
  punches_in_order = v.punches_in_order;
  in_done = v.in_done;
  punch_done = λ h. (refl, (v.punch_done h).1);
  all_done = v.all_done;
}
step-IsOrderly (moves prefer os) l v = move_in-IsOrderly l.phase prefer os l v

run-IsOrderly_from : (es : List Event) (l : Loop) → IsOrderly l → IsOrderly (run es l)
unfolding run
run-IsOrderly_from [] l v = v
run-IsOrderly_from (e ∷ es) l v = run-IsOrderly_from es (step e l) (step-IsOrderly e l v)

new_loop-IsOrderly : (w : Writer) → IsOrderly (new_loop w)
new_loop-IsOrderly w = record {
  in_order = refl;
  punches_in_order = refl;
  in_done = λ h. cc;
  punch_done = λ h. cc;
  all_done = λ h. cc;
}

-- In any order of sends, closes and steps of the writer's loop, what was sent is what was
-- handled and what still waits, in the order of the sends, for the commands and for the
-- punches; and once the loop has returned, each that was sent was handled.
pub run-IsOrderly :
    (es : List Event) (w : Writer)
    → let l = run es (new_loop w) in
      IsOrderly l
      × (l.phase ≡ returned
          → (l.sent_commands ≡ l.handled_commands) × (l.sent_punches ≡ l.handled_punches))
run-IsOrderly es w =
    let l = run es (new_loop w) in
    let v = run-IsOrderly_from es (new_loop w) (new_loop-IsOrderly w) in
    (
      v,
      λ h.
          let (a, b) = v.all_done h in
          (
            v.in_order
                ∙ ap (◌++◌ l.handled_commands) (v.in_done a).1
                ∙ append_nil l.handled_commands,
            v.punches_in_order
                ∙ ap (◌++◌ l.handled_punches) (v.punch_done b).1
                ∙ append_nil l.handled_punches,
          ),
    )
