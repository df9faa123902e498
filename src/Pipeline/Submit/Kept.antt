-- ===== src/Pipeline/Submit/Kept.antt =====
-- Where the writes are that SubmitWrite took.
use tssniff.Prelude.{
  ℕ, zero, suc, ◌+◌, ◌≤◌, ◌<◌, ◌≡◌, refl, ap, Bool, true, false, List, [], ◌∷◌, ◌++◌, Option, none,
  some, arith, ltb, if◌then◌else◌, length, length-append, inl, inr, Bool-cases,
}
use tssniff.Events.{WriteEvent}
use tssniff.Pipeline.Submit.{
  Queue, new_queue, submit_when, submit, pick, enter_with, enter, receive_from, receive,
  start_closing, finish_closing, Event, submits, enters, receives, starts_closing, finishes_closing,
  step, run,
}

-- How many entries of the list have the property.
abbrev pub count : (WriteEvent → Bool) → List WriteEvent → ℕ
count p [] = 0
count p (e ∷ es) = if p e then suc (count p es) else count p es

count-append :
    (p : WriteEvent → Bool) (es fs : List WriteEvent) → count p (es ++ fs) ≡ count p es + count p fs
count-append p [] fs = omega arith
count-append p (e ∷ es) fs = ground (arith, count-append p es fs)

-- What was taken is what was received, what is in the channel and what waits to be sent, whatever
-- property of writes is counted; the channel is within its depth; and no sender waits on a closed
-- channel, on which nothing is submitted any more.
pub record IsKept (n : ℕ) (q : Queue) : Type 0 where
  pub all :
      (p : WriteEvent → Bool)
      → count p q.accepted ≡ count p q.received + count p q.items + count p q.senders
  pub fits : length q.items ≤ n
  pub sealed : q.closed ≡ true → (q.senders ≡ []) × (q.closing ≡ true)

-- The property of a picked entry and the others.
abbrev IsPicked : List WriteEvent → Option (WriteEvent × List WriteEvent) → Type 0
IsPicked ss none = Unit {0}
IsPicked ss (some (ev, others)) =
    ((p : WriteEvent → Bool) → count p ss ≡ count p (ev ∷ []) + count p others) × (0 < length ss)

IsPicked-next :
    (s : WriteEvent) (ss : List WriteEvent) (r : Option (WriteEvent × List WriteEvent))
    → IsPicked ss r
    → IsPicked (s ∷ ss) (elim r as (λ _. Option (WriteEvent × List WriteEvent)) [
      | none ↦ none
      | some r ↦ some (r.0, s ∷ r.1)
    ])
IsPicked-next s ss none v = tt
IsPicked-next s ss (some (ev, others)) (a, b) = (λ p. let c = a p in ground arith, omega arith)

pick-IsPicked : (i : ℕ) (ss : List WriteEvent) → IsPicked ss (pick i ss)
unfolding pick
pick-IsPicked i [] = tt
pick-IsPicked zero (s ∷ ss) = (λ p. ground arith, omega arith)
pick-IsPicked (suc i) (s ∷ ss) = IsPicked-next s ss (pick i ss) (pick-IsPicked i ss)

enter_with-IsKept :
    (n : ℕ) (r : Option (WriteEvent × List WriteEvent)) (q : Queue)
    → length q.items < n
    → IsPicked q.senders r
    → IsKept n q
    → IsKept n (enter_with r q)
unfolding enter_with
enter_with-IsKept n none q h v k = k
enter_with-IsKept n (some (ev, others)) q h (a, b) k = record {
  all = λ p. omega (arith, k.all p, a p, count-append p q.items (ev ∷ []));
  fits = omega (arith, length-append q.items (ev ∷ []), h);
  sealed = λ c.
      let (e, f) = k.sealed c in
      let g : length q.senders ≡ 0 = ap length e in absurd (omega (arith, b, g));
}

submit_when-IsKept :
    (b : Bool) (n : ℕ) (ev : WriteEvent) (q : Queue)
    → q.closing ≡ b
    → IsKept n q
    → IsKept n (submit_when b n ev q).1
unfolding submit_when
submit_when-IsKept true n ev q e k = k
submit_when-IsKept false n ev q e k = elim (Bool-cases (ltb (length q.items) n)) [
  | inl f ↦ rw f (record {
    all = λ p.
        omega
          (arith, k.all p, count-append p q.accepted (ev ∷ []), count-append p q.items (ev ∷ []));
    fits = ground (arith, length-append q.items (ev ∷ []), f);
    sealed = k.sealed;
  })
  | inr f ↦ rw f (record {
    all = λ p.
        omega
          (arith, k.all p, count-append p q.accepted (ev ∷ []), count-append p q.senders (ev ∷ []));
    fits = k.fits;
    sealed = λ c. let d = (k.sealed c).1 in cc;
  })
]

enter-IsKept : (n i : ℕ) (q : Queue) → IsKept n q → IsKept n (enter n i q)
unfolding enter
enter-IsKept n i q k = elim (Bool-cases (ltb (length q.items) n)) [
  | inl e ↦
      rw e (enter_with-IsKept n (pick i q.senders) q (ground arith) (pick-IsPicked i q.senders) k)
  | inr e ↦ rw e k
]

receive_from-IsKept :
    (n : ℕ) (evs : List WriteEvent) (q : Queue)
    → q.items ≡ evs
    → IsKept n q
    → IsKept n (receive_from evs q)
unfolding receive_from
receive_from-IsKept n [] q e k = k
receive_from-IsKept n (ev ∷ evs) q e k = record {
  all = λ p.
      let c : count p q.items ≡ count p (ev ∷ evs) = ap (count p) e in
      ground (arith, k.all p, c, count-append p q.received (ev ∷ []));
  fits = let c : length q.items ≡ suc (length evs) = ap length e in omega (arith, c, k.fits);
  sealed = k.sealed;
}

length_zero : (ss : List WriteEvent) → length ss ≡ 0 → ss ≡ []
length_zero [] h = refl
length_zero (s ∷ ss) h = absurd (omega arith)

finish_closing-IsKept : (n : ℕ) (q : Queue) → IsKept n q → IsKept n (finish_closing q)
unfolding finish_closing
finish_closing-IsKept n q k = record {
  all = k.all;
  fits = k.fits;
  sealed = λ c. elim (Bool-cases q.closed) [
    | inl e ↦ k.sealed e
    | inr e ↦ (length_zero q.senders (ground arith), ground arith)
  ];
}

step-IsKept : (n : ℕ) (e : Event) (q : Queue) → IsKept n q → IsKept n (step n e q)
unfolding step submit receive start_closing
step-IsKept n (submits ev) q k = submit_when-IsKept q.closing n ev q refl k
step-IsKept n (enters i) q k = enter-IsKept n i q k
step-IsKept n receives q k = receive_from-IsKept n q.items q refl k
step-IsKept n starts_closing q k = record {
  all = k.all;
  fits = k.fits;
  sealed = λ c. ((k.sealed c).0, refl);
}
step-IsKept n finishes_closing q k = finish_closing-IsKept n q k

run-IsKept_from : (n : ℕ) (es : List Event) (q : Queue) → IsKept n q → IsKept n (run n es q)
unfolding run
run-IsKept_from n [] q k = k
run-IsKept_from n (e ∷ es) q k = run-IsKept_from n es (step n e q) (step-IsKept n e q k)

-- Whatever writes are submitted, sent late by a goroutine, received and when the channel is
-- closed, in any order: by any property of writes, as many were taken as were received, are in
-- the channel and wait to be sent; the channel is within its depth; it is closed only when no
-- sender waits and closing was announced; and once it is closed and empty, as many were
-- received as were taken.
pub run-IsKept :
    (n : ℕ) (es : List Event)
    → let q = run n es new_queue in
      IsKept n q
      × (q.closed ≡ true
          → q.items ≡ []
          → (p : WriteEvent → Bool) → count p q.accepted ≡ count p q.received)
run-IsKept n es =
    let q = run n es new_queue in
    let k : IsKept n q =
      run-IsKept_from n es new_queue
        (record { all = λ p. refl; fits = omega arith; sealed = λ c. cc }) in
    (
      k,
      λ c e p.
          let none_waits : count p q.senders ≡ 0 = ap (count p) (k.sealed c).0 in
          let none_left : count p q.items ≡ 0 = ap (count p) e in
          omega (arith, k.all p, none_waits, none_left),
    )
