-- ===== src/Pipeline/Arrival.antt =====
-- `acceptWrite` loses no write: what arrived went out, or waits for one that did not arrive.
use tssniff.Prelude.{
  ℕ, zero, suc, ◌+◌, ◌≤◌, ◌<◌, ◌≡◌, ◌⊎◌, inl, inr, ◌∙◌, subst, List, [], ◌∷◌, ◌++◌, some, arith,
  ltb, ◌==◌, length, Bool-cases, Option-cases,
}
use tssniff.Events.{WriteEvent}
use tssniff.Pipeline.{
  lookup, insert, delete, Dispatcher, start, dispatch_write, dispatch_next, release_run,
  accept_write, accept_all,
}
use tssniff.Pipeline.Order.{
  lookup-insert, lookup-delete, Consecutive, Consecutive-le, Inv, start-Inv, accept_all-Inv,
}

-- The write with this number went out, or waits.
abbrev pub Arrived : ℕ → Dispatcher → Type 0
Arrived k d = (k < d.next_seq) ⊎ ((e : WriteEvent) × (lookup k d.pending ≡ some e))

release_run-Arrived :
    (k fuel : ℕ) (ev : WriteEvent) (d : Dispatcher)
    → (k < d.next_seq + 1) ⊎ ((e : WriteEvent) × (lookup k d.pending ≡ some e))
    → Arrived k (release_run fuel ev d)
unfolding release_run dispatch_next dispatch_write
release_run-Arrived k zero ev d a = a
release_run-Arrived k (suc fuel) ev d a = elim (Option-cases (lookup (d.next_seq + 1) d.pending)) [
  | inl e ↦ rw (e, release_run) a
  | inr (next, e) ↦ rw (e, release_run) (release_run-Arrived k fuel next _ (moved a))
]
  where
    moved :
        (k < d.next_seq + 1) ⊎ ((e : WriteEvent) × (lookup k d.pending ≡ some e))
        → (k < d.next_seq + 1 + 1)
          ⊎ ((e : WriteEvent) × (lookup k (delete (d.next_seq + 1) d.pending) ≡ some e))
    moved (inl h) = inl (omega arith)
    moved (inr (f, h)) = elim (Bool-cases (d.next_seq + 1 == k)) [
      | inl t ↦ inl (ground arith)
      | inr t ↦ inr (f, ground (arith, lookup-delete (d.next_seq + 1) k d.pending))
    ]

held-Arrived :
    (k : ℕ) (ev : WriteEvent) (d : Dispatcher)
    → Arrived k d ⊎ (ev.seq ≡ k)
    → Arrived k (record d { pending = insert ev.seq ev d.pending })
held-Arrived k ev d (inl (inl h)) = inl h
held-Arrived k ev d (inl (inr (e, h))) = elim (Bool-cases (ev.seq == k)) [
  | inl t ↦ inr (ev, lookup-insert ev.seq k ev d.pending ∙ rw t)
  | inr t ↦ inr (e, lookup-insert ev.seq k ev d.pending ∙ rw t h)
]
held-Arrived k ev d (inr h) = inr (ev, ground (arith, lookup-insert ev.seq k ev d.pending))

kept-Arrived :
    (k : ℕ) (ev : WriteEvent) (d : Dispatcher)
    → ev.seq < d.next_seq
    → Arrived k d ⊎ (ev.seq ≡ k)
    → Arrived k d
kept-Arrived k ev d h (inl a) = a
kept-Arrived k ev d h (inr e) = inl (omega arith)

run-Arrived :
    (k : ℕ) (ev : WriteEvent) (d : Dispatcher)
    → ev.seq ≡ d.next_seq
    → Arrived k d ⊎ (ev.seq ≡ k)
    → (k < d.next_seq + 1) ⊎ ((e : WriteEvent) × (lookup k d.pending ≡ some e))
run-Arrived k ev d h (inl (inl l)) = inl (omega arith)
run-Arrived k ev d h (inl (inr w)) = inr w
run-Arrived k ev d h (inr e) = inl (omega arith)

pub accept_write-Arrived :
    (k : ℕ) (ev : WriteEvent) (d : Dispatcher)
    → Arrived k d ⊎ (ev.seq ≡ k)
    → Arrived k (accept_write ev d)
unfolding accept_write
accept_write-Arrived k ev d a = elim (Bool-cases (ltb ev.seq d.next_seq)) [
  | inl t ↦ rw (t, accept_write) (kept-Arrived k ev d (ground arith) a)
  | inr t ↦ elim (Bool-cases (ltb d.next_seq ev.seq)) [
    | inl u ↦ rw (t, u, accept_write) (held-Arrived k ev d a)
    | inr u ↦
        rw (t, u, accept_write)
          (release_run-Arrived k (suc (length d.pending)) ev d
            (run-Arrived k ev d (ground arith) a))
  ]
]

-- Some write of the list has this number.
abbrev pub HasSeq : ℕ → List WriteEvent → Type 0
HasSeq k [] = ⊥
HasSeq k (e ∷ es) = (e.seq ≡ k) ⊎ HasSeq k es

pub accept_all-Arrived :
    (k : ℕ) (es : List WriteEvent) (d : Dispatcher)
    → Arrived k d ⊎ HasSeq k es
    → Arrived k (accept_all es d)
unfolding accept_all
accept_all-Arrived k [] d (inl a) = a
accept_all-Arrived k [] d (inr h) = absurd h
accept_all-Arrived k (e ∷ es) d (inl a) =
    accept_all-Arrived k es (accept_write e d) (inl (accept_write-Arrived k e d (inl a)))
accept_all-Arrived k (e ∷ es) d (inr (inl h)) =
    accept_all-Arrived k es (accept_write e d) (inl (accept_write-Arrived k e d (inr h)))
accept_all-Arrived k (e ∷ es) d (inr (inr h)) = accept_all-Arrived k es (accept_write e d) (inr h)

-- The next number did not arrive.
pub next-Arrived : {d : Dispatcher} → Inv d → Arrived d.next_seq d → ⊥
next-Arrived v (inl h) = omega arith
next-Arrived v (inr (e, h)) = cc (v.settled, h)

-- When writes arrive in any order, with any repetition, and all numbers from 1 to n are among
-- them, the sniffer gets writes numbered 1, 2, 3 and so on without a gap, up to n at least.
pub accept_all-sends :
    (n : ℕ) (es : List WriteEvent)
    → ((k : ℕ) → 1 ≤ k → k ≤ n → HasSeq k es)
    → let d = accept_all es start in Consecutive 1 d.to_sniffer d.next_seq × (n < d.next_seq)
accept_all-sends n es all =
    let d = accept_all es start in
    let v = accept_all-Inv es start start-Inv in
    (
      v.sent,
      elim (Bool-cases (ltb n d.next_seq)) [
        | inl t ↦ ground arith
        | inr t ↦ absurd (
            next-Arrived v (
              accept_all-Arrived d.next_seq es start (
                inr (
                  all d.next_seq (Consecutive-le 1 d.next_seq d.to_sniffer v.sent)
                    (ground arith)))))
      ],
    )

-- A property of every write that arrives holds of every write that goes out or waits.
module _ (P : WriteEvent → Type 0) where
  abbrev pub AllWrites : List WriteEvent → Type 0
  AllWrites [] = Unit {0}
  AllWrites (e ∷ es) = P e × AllWrites es

  record Only (d : Dispatcher) : Type 0 where
    out : AllWrites d.to_sniffer
    waiting : (k : ℕ) (e : WriteEvent) → lookup k d.pending ≡ some e → P e

  AllWrites-append :
      (es : List WriteEvent) (e : WriteEvent) → AllWrites es → P e → AllWrites (es ++ (e ∷ []))
  AllWrites-append [] e a p = (p, tt)
  AllWrites-append (f ∷ es) e a p = (a.0, AllWrites-append es e a.1 p)

  release_run-Only :
      (fuel : ℕ) (ev : WriteEvent) (d : Dispatcher) → P ev → Only d → Only (release_run fuel ev d)
  unfolding release_run dispatch_next dispatch_write
  release_run-Only zero ev d p o = record {
    out = AllWrites-append d.to_sniffer ev o.out p;
    waiting = o.waiting;
  }
  release_run-Only (suc fuel) ev d p o =
      let out' = AllWrites-append d.to_sniffer ev o.out p in
      elim (Option-cases (lookup (d.next_seq + 1) d.pending)) [
        | inl e ↦ rw (e, release_run) (record { out = out'; waiting = o.waiting })
        | inr (next, e) ↦
            rw (e, release_run)
              (release_run-Only fuel next _ (o.waiting (d.next_seq + 1) next e) (record {
                out = out';
                waiting = λ k f l.
                    o.waiting k f (ground (arith, lookup-delete (d.next_seq + 1) k d.pending));
              }))
      ]

  held-Only :
      (ev : WriteEvent) (d : Dispatcher)
      → P ev
      → Only d
      → Only (record d { pending = insert ev.seq ev d.pending })
  held-Only ev d p o = record {
    out = o.out;
    waiting = λ k e l. elim (Bool-cases (ev.seq == k)) [
      | inl t ↦ subst P (ground (arith, lookup-insert ev.seq k ev d.pending)) p
      | inr t ↦ o.waiting k e (ground (arith, lookup-insert ev.seq k ev d.pending))
    ];
  }

  accept_all-Only :
      (es : List WriteEvent) (d : Dispatcher) → AllWrites es → Only d → Only (accept_all es d)
  unfolding accept_all accept_write
  accept_all-Only [] d a o = o
  accept_all-Only (e ∷ es) d a o =
      accept_all-Only es (accept_write e d) a.1 (elim (Bool-cases (ltb e.seq d.next_seq)) [
        | inl t ↦ rw (t, accept_write) o
        | inr t ↦ elim (Bool-cases (ltb d.next_seq e.seq)) [
          | inl u ↦ rw (t, u, accept_write) (held-Only e d a.0 o)
          | inr u ↦ rw (t, u, accept_write) (release_run-Only (suc (length d.pending)) e d a.0 o)
        ]
      ])

  -- Only writes that arrived go to the sniffer: a property of every write that arrives is one
  -- of every write that is dispatched.
  pub accept_all-AllWrites :
      (es : List WriteEvent) → AllWrites es → AllWrites (accept_all es start).to_sniffer
  unfolding start lookup
  accept_all-AllWrites es a =
      (accept_all-Only es start a (record { out = tt; waiting = λ k e h. cc })).out
