-- ===== src/Pipeline/Sync.antt =====
-- Sync of pipeline.go: it waits for the goroutines that send late, and then for its barrier, which
-- the dispatcher takes to the writer once the target went to the sniffer.
use tssniff.Prelude.{
  ℕ, zero, suc, ◌+◌, ◌≤◌, ◌<◌, ◌≡◌, ◌⊎◌, inl, inr, refl, ◌∙◌, Bool, true, false, ◌&&◌, List, [],
  ◌∷◌, ◌++◌, ap, Option, none, some, arith, subst, ltb, ◌==◌, if◌then◌else◌, length, Bool-cases,
  Option-cases,
}
use tssniff.Events.{WriteEvent}
use tssniff.Pipeline.{
  Dispatcher, start, lookup, dispatch_write, dispatch_next, release_run, accept_write, accept_all,
  drain_until, Command, barrier, barrier_request, step, receive, looped, submit_barrier, finish,
}
use tssniff.Pipeline.Order.{Inv, start-Inv, accept_write-Inv, accept_all-Inv, lookup-delete}
use tssniff.Pipeline.Arrival.{
  Arrived, HasSeq, accept_write-Arrived, accept_all-Arrived, next-Arrived,
}
use tssniff.Pipeline.Submit.{Queue, new_queue, Event, run}
use tssniff.Pipeline.Submit.Kept.{count, run-IsKept}
use tssniff.Pipeline.Room.{taken, TakesAtMost, accept_all-taken, drain_until-TakesAtMost}
use tssniff.Pipeline.Handover.{sniffer_queue_depth}
use tssniff.Pipeline.Barrier.{accept_write-Same}

-- The number of the write that went out last is that before the next one.
abbrev Latest : Dispatcher → Type 0
Latest d = d.dispatched_seq + 1 ≡ d.next_seq

release_run-Latest :
    (fuel : ℕ) (ev : WriteEvent) (d : Dispatcher)
    → ev.seq ≡ d.next_seq
    → ((k : ℕ) (e : WriteEvent) → lookup k d.pending ≡ some e → e.seq ≡ k)
    → Latest (release_run fuel ev d)
unfolding release_run dispatch_next dispatch_write
release_run-Latest zero ev d s key = omega (arith, s)
release_run-Latest (suc fuel) ev d s key = elim (Option-cases (lookup (d.next_seq + 1) d.pending)) [
  | inl e ↦ rw (e, release_run) (omega (arith, s))
  | inr (next, e) ↦
      rw (e, release_run)
        (release_run-Latest fuel next _ (key (d.next_seq + 1) next e)
          (λ k f l. key k f (ground (arith, lookup-delete (d.next_seq + 1) k d.pending))))
]

accept_write-Latest :
    (ev : WriteEvent) (d : Dispatcher) → Inv d → Latest d → Latest (accept_write ev d)
unfolding accept_write
accept_write-Latest ev d v l =
    ground (
      arith,
      λ (s : ev.seq ≡ d.next_seq). release_run-Latest (suc (length d.pending)) ev d s v.keyed,
    )

accept_all-Latest :
    (es : List WriteEvent) (d : Dispatcher) → Inv d → Latest d → Latest (accept_all es d)
unfolding accept_all
accept_all-Latest [] d v l = l
accept_all-Latest (e ∷ es) d v l =
    accept_all-Latest es (accept_write e d) (accept_write-Inv e d v) (accept_write-Latest e d v l)

-- All numbers up to the target arrived or are still to come.
abbrev Expects : ℕ → List WriteEvent → Dispatcher → Type 0
Expects target es d = (k : ℕ) → 1 ≤ k → k ≤ target → Arrived k d ⊎ HasSeq k es

-- The loop of `handleBarrier` ends with the target dispatched.
abbrev Reaches : ℕ → Option Dispatcher → Type 0
Reaches target o =
    (d : Dispatcher) × (o ≡ some d) × (target ≤ d.dispatched_seq) × (d.writes_open ≡ true)

drain_until-Reaches :
    (target : ℕ) (es : List WriteEvent) (d : Dispatcher)
    → Inv d
    → Latest d
    → d.writes_open ≡ true
    → Expects target es d
    → Reaches target (drain_until target es false d)
unfolding drain_until
drain_until-Reaches target [] d v l o all = elim (Bool-cases (ltb d.dispatched_seq target)) [
  | inl t ↦ elim (all d.next_seq (omega (arith, l)) (ground (arith, t, l))) [
    | inl a ↦ absurd (next-Arrived v a)
    | inr h ↦ absurd h
  ]
  | inr t ↦ rw t (d, refl, ground (arith, t), o)
]
drain_until-Reaches target (e ∷ es) d v l o all = elim (Bool-cases (ltb d.dispatched_seq target)) [
  | inl t ↦
      let same = accept_write-Same e d in
      let both : (ltb d.dispatched_seq target && d.writes_open) ≡ true = ground (arith, t, o) in
      rw both (
        drain_until-Reaches target es (accept_write e d) (accept_write-Inv e d v)
          (accept_write-Latest e d v l) (same.2 ∙ o) (λ k a b. moved k (all k a b)))
  | inr t ↦ rw t (d, refl, ground (arith, t), o)
]
  where
    moved : (k : ℕ) → Arrived k d ⊎ HasSeq k (e ∷ es) → Arrived k (accept_write e d) ⊎ HasSeq k es
    moved k (inl a) = inl (accept_write-Arrived k e d (inl a))
    moved k (inr (inl h)) = inl (accept_write-Arrived k e d (inr h))
    moved k (inr (inr h)) = inr h

-- A list has a number exactly if it is counted.
counted : (k : ℕ) (es : List WriteEvent) → HasSeq k es → 0 < count (λ e. e.seq == k) es
counted k [] h = absurd h
counted k (e ∷ es) (inl h) = ground (arith, h)
counted k (e ∷ es) (inr h) = ground (arith, counted k es h)

HasSeq-counted : (k : ℕ) (es : List WriteEvent) → 0 < count (λ e. e.seq == k) es → HasSeq k es
HasSeq-counted k [] h = absurd (omega (arith, h))
HasSeq-counted k (e ∷ es) h = elim (Bool-cases (e.seq == k)) [
  | inl t ↦ inl (ground (arith, t))
  | inr t ↦ inr (HasSeq-counted k es (ground (arith, t, h)))
]

accept_all-open :
    (es : List WriteEvent) (d : Dispatcher)
    → ((accept_all es d).writes_open ≡ d.writes_open) × ((accept_all es d).returned ≡ d.returned)
unfolding accept_all
accept_all-open [] d = (refl, refl)
accept_all-open (e ∷ es) d =
    let same = accept_write-Same e d in
    let (a, b) = accept_all-open es (accept_write e d) in (a ∙ same.2, b ∙ same.3)

-- `Sync` for a dispatcher that gets the writes of the channel while it handles the barrier; `none`
-- is a wait without end.
pub sync : ℕ → Queue → Dispatcher → Option Dispatcher
sync target q d =
    if length q.senders == 0 then step (barrier_request target q.items q.closed) d else none

-- The step of a barrier whose loop reaches its target.
barrier_step :
    (target : ℕ) (items : List WriteEvent) (closed : Bool) (d : Dispatcher)
    → d.returned ≡ false
    → Reaches target (drain_until target items closed d)
    → (d' : Dispatcher) × (step (barrier_request target items closed) d ≡ some d')
      × (target ≤ d'.dispatched_seq)
      × ((c : List Command) × (d'.to_writer ≡ c ++ (barrier target ∷ [])))
      × (length d'.to_sniffer ≤ length items + taken d)
unfolding step receive looped submit_barrier
barrier_step target items closed d r (d', e, t, o) =
    let sent : Dispatcher = record d' { to_writer = d'.to_writer ++ (barrier target ∷ []) } in
    (
      sent,
      ap (λ b. if b then some d else receive (barrier_request target items closed) d) r
          ∙ ap (λ x. looped (submit_barrier target x)) e
          ∙ ap (λ b. some (if b then sent else finish sent)) o,
      t,
      (d'.to_writer, refl),
      let few =
            subst (TakesAtMost (length items + taken d)) e
              (drain_until-TakesAtMost target items closed d) in
          omega (arith, few),
    )

-- However writes were submitted, sent late and received: once no sender waits, while the
-- channel is open, and if at most 1024 writes were received or are in the channel, a `Sync`
-- whose target numbers were all taken by SubmitWrite gets its barrier through a dispatcher that
-- has only received writes so far. That dispatches the writes of the channel up to the target
-- at least, and then sends the barrier to the writer; all the writes it sent to the sniffer are
-- at most 1024, the depth of that channel, so that each send finds room even if the sniffer
-- takes none.
pub sync-reaches :
    (n target : ℕ) (es : List Event)
    → let q = run n es new_queue in
      let d = accept_all q.received start in
      q.senders ≡ []
      → q.closed ≡ false
      → ((k : ℕ) → 1 ≤ k → k ≤ target → HasSeq k q.accepted)
      → length q.received + length q.items ≤ sniffer_queue_depth
      → (d' : Dispatcher) × (sync target q d ≡ some d')
        × (target ≤ d'.dispatched_seq)
        × ((c : List Command) × (d'.to_writer ≡ c ++ (barrier target ∷ [])))
        × (length d'.to_sniffer ≤ sniffer_queue_depth)
unfolding sync start
sync-reaches n target es none_late still_open all room =
    let q = run n es new_queue in
    let d = accept_all q.received start in
    let kept = (run-IsKept n es).0 in
    let (o, r) = accept_all-open q.received start in
    let expects : Expects target q.items d = λ k a b.
      let p : WriteEvent → Bool = λ e. e.seq == k in
      let late : count p q.senders ≡ 0 = ap (count p) none_late in
      let sum = kept.all p in
      let many = counted k q.accepted (all k a b) in
      elim (Bool-cases (ltb 0 (count p q.received))) [
        | inl t ↦ inl (
            accept_all-Arrived k q.received start
              (inr (HasSeq-counted k q.received (ground (arith, t)))))
        | inr t ↦ inr (HasSeq-counted k q.items (ground (arith, t, late, sum, many)))
      ] in
    let reached =
      drain_until-Reaches target q.items d (accept_all-Inv q.received start start-Inv)
        (accept_all-Latest q.received start start-Inv refl) o expects in
    let (d', e, t, c, few) = barrier_step target q.items false d r reached in
    let before = accept_all-taken q.received start in
    rw (none_late, still_open) (d', e, t, c, omega (arith, few, before, room))
