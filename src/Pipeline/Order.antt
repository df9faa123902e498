-- ===== src/Pipeline/Order.antt =====
-- `acceptWrite` puts arrivals in any order into the order of their sequence numbers.
use tssniff.Prelude.{
  ℕ, zero, suc, ◌+◌, ◌≤◌, ◌<◌, ◌≡◌, inl, inr, refl, List, [], ◌∷◌, ◌++◌, none, some, arith, ◌==◌,
  if◌then◌else◌, length, Option-cases,
}
use tssniff.Events.{WriteEvent}
use tssniff.Pipeline.{
  Pending, lookup, insert, delete, Dispatcher, start, dispatch_write, dispatch_next, release_run,
  accept_write, accept_all,
}

pub lookup-insert :
    (k j : ℕ) (e : WriteEvent) (m : Pending)
    → lookup j (insert k e m) ≡ (if k == j then some e else lookup j m)
unfolding lookup insert
lookup-insert k j e [] = refl
lookup-insert k j e ((i, f) ∷ m) = ground (arith, lookup-insert k j e m)

pub lookup-delete :
    (k j : ℕ) (m : Pending) → lookup j (delete k m) ≡ (if k == j then none else lookup j m)
unfolding lookup delete
lookup-delete k j [] = ground arith
lookup-delete k j ((i, f) ∷ m) = ground (arith, lookup-delete k j m)

length-delete-le : (k : ℕ) (m : Pending) → length (delete k m) ≤ length m
unfolding delete
length-delete-le k [] = omega arith
length-delete-le k ((i, f) ∷ m) = ground (arith, length-delete-le k m)

length-delete-lt :
    (k : ℕ) (m : Pending) (e : WriteEvent) → lookup k m ≡ some e → length (delete k m) < length m
unfolding lookup delete
length-delete-lt k [] e h = cc
length-delete-lt k ((i, f) ∷ m) e h = ground (arith, length-delete-le k m, length-delete-lt k m e)

-- The numbers of the list run from `k` up to, but not including, `n`.
abbrev pub Consecutive : ℕ → List WriteEvent → ℕ → Type 0
Consecutive k [] n = k ≡ n
Consecutive k (e ∷ es) n = (e.seq ≡ k) × Consecutive (k + 1) es n

Consecutive-append :
    (k n : ℕ) (es : List WriteEvent) (e : WriteEvent)
    → Consecutive k es n
    → e.seq ≡ n
    → Consecutive k (es ++ (e ∷ [])) (n + 1)
Consecutive-append k n [] e c h = (omega arith, omega arith)
Consecutive-append k n (f ∷ es) e (a, c) h = (a, Consecutive-append (k + 1) n es e c h)

pub Consecutive-le : (k n : ℕ) (es : List WriteEvent) → Consecutive k es n → k ≤ n
Consecutive-le k n [] c = omega arith
Consecutive-le k n (e ∷ es) c = omega (arith, Consecutive-le (k + 1) n es c.1)

-- The writes that went out are numbered without a gap, and the next one is not waiting.
pub record Inv (d : Dispatcher) : Type 0 where
  pub sent : Consecutive 1 d.to_sniffer d.next_seq
  pub keyed : (k : ℕ) (e : WriteEvent) → lookup k d.pending ≡ some e → e.seq ≡ k
  pub settled : lookup d.next_seq d.pending ≡ none

pub start-Inv : Inv start
unfolding start lookup
start-Inv = record { sent = refl; keyed = λ k e h. cc; settled = refl }

-- The loop leaves the invariant: in particular its fuel never ends it.
release_run-Inv :
    (fuel : ℕ) (ev : WriteEvent) (d : Dispatcher)
    → length d.pending < fuel
    → ev.seq ≡ d.next_seq
    → Consecutive 1 d.to_sniffer d.next_seq
    → ((k : ℕ) (e : WriteEvent) → lookup k d.pending ≡ some e → e.seq ≡ k)
    → Inv (release_run fuel ev d)
unfolding release_run dispatch_next dispatch_write
release_run-Inv zero ev d h s c key = absurd (omega arith)
release_run-Inv (suc fuel) ev d h s c key =
    let c' = Consecutive-append 1 d.next_seq d.to_sniffer ev c s in
    elim (Option-cases (lookup (d.next_seq + 1) d.pending)) [
      | inl e ↦ rw (e, release_run) (record { sent = c'; keyed = key; settled = e })
      | inr (next, e) ↦
          rw (e, release_run)
            (release_run-Inv fuel next _
              (omega (arith, length-delete-lt (d.next_seq + 1) d.pending next e))
              (key (d.next_seq + 1) next e) c'
              (λ k f l. key k f (ground (arith, lookup-delete (d.next_seq + 1) k d.pending))))
    ]

-- A write that comes too early waits.
held-Inv :
    (ev : WriteEvent) (d : Dispatcher)
    → d.next_seq < ev.seq
    → Inv d
    → Inv (record d { pending = insert ev.seq ev d.pending })
held-Inv ev d h v = record {
  sent = v.sent;
  keyed = λ k e l. ground (arith, lookup-insert ev.seq k ev d.pending, v.keyed k e);
  settled = ground (arith, lookup-insert ev.seq d.next_seq ev d.pending, v.settled);
}

pub accept_write-Inv : (ev : WriteEvent) (d : Dispatcher) → Inv d → Inv (accept_write ev d)
unfolding accept_write
accept_write-Inv ev d v = ground (
  arith,
  held-Inv ev d,
  λ (s : ev.seq ≡ d.next_seq).
      release_run-Inv (suc (length d.pending)) ev d (omega arith) s v.sent v.keyed,
)

pub accept_all-Inv : (es : List WriteEvent) (d : Dispatcher) → Inv d → Inv (accept_all es d)
unfolding accept_all
accept_all-Inv [] d v = v
accept_all-Inv (e ∷ es) d v = accept_all-Inv es (accept_write e d) (accept_write-Inv e d v)
