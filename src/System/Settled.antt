-- ===== src/System/Settled.antt =====
-- The writer's step on the oldest write of the queue.
use tssniff.Prelude.{
  ℕ, ◌+◌, ◌≤◌, ◌<◌, ◌≡◌, ◌≢◌, sym, ◌∙◌, Bool, true, List, [], ◌∷◌, Option, some, arith,
}
use tssniff.Events.{WriteEvent}
use tssniff.Shm.Io.{IoError, punch_bytes}
use tssniff.Shm.Extents.{ShmExtent, remove_range_generation}
use tssniff.Shm.Extents.Owner.{owner}
use tssniff.Shm.Extents.Generation.{Owns}
use tssniff.Shm.Extents.Remove.{owner-remove_range_generation}
use tssniff.Shm.Disk.{ShmDisk, release_if_current}
use tssniff.Shm.Disk.Valid.{IsValid}
use tssniff.Shm.Disk.Release.{release_own_cases}
use tssniff.System.Pending.{IsHeld, ArePending}

-- The rest of the queue stays held while less is known.
pub ArePending-less :
    (known known' : ℕ → Bool) (s : ShmDisk) (lo : ℕ) (evs : List WriteEvent)
    → ((x : ℕ) → known' x ≡ true → known x ≡ true)
    → ArePending known s lo evs
    → ArePending known' s lo evs
ArePending-less known known' s lo [] less p = tt
ArePending-less known known' s lo (ev ∷ evs) less (a, v, p) = (
  a,
  record {
    begins = v.begins;
    ends = v.ends;
    issued = v.issued;
    owned = v.owned;
    copied = λ x i own k. v.copied x i own (less x k);
  },
  ArePending-less known known' s (ev.staged.gen + 1) evs less p,
)

pub ArePending-from :
    (known : ℕ → Bool) (s : ShmDisk) (lo lo' : ℕ) (evs : List WriteEvent)
    → lo' ≤ lo
    → ArePending known s lo evs
    → ArePending known s lo' evs
ArePending-from known s lo lo' [] h p = tt
ArePending-from known s lo lo' (ev ∷ evs) h (a, v, p) = (omega (arith, a, h), v, p)

module _ (known : ℕ → Bool) (s : ShmDisk) (p : ShmExtent) (o : IsValid s) (b : p.start < p.end)
    (own : Owns p.start p.end p.gen s.extents) where
  abbrev released_disk : ShmDisk
  released_disk = record s {
    content = punch_bytes s.content p.start p.end;
    extents = remove_range_generation p.start p.end p.gen s.extents;
  }

  -- A byte of another generation stays as it is.
  released-other :
      (x g : ℕ)
      → g ≢ p.gen
      → owner x s.extents ≡ some g
      → (owner x released_disk.extents ≡ some g) × (released_disk.content x ≡ s.content x)
  unfolding punch_bytes
  released-other x g other e = ground (
    arith,
    owner-remove_range_generation p.start p.end p.gen 0 s.extents (omega (arith, b)) o.ordered x,
    e,
    other,
    own x,
  )

  IsHeld-released :
      (ev : WriteEvent) → p.gen < ev.staged.gen → IsHeld known s ev → IsHeld known released_disk ev
  IsHeld-released ev newer v = record {
    begins = v.begins;
    ends = v.ends;
    issued = v.issued;
    owned = λ x i.
        let (g, e, le) = v.owned x i in
        (g, (released-other x g (λ t. absurd (omega (arith, t, le, newer))) e).0, le);
    copied = λ x i e k.
        let (g, e', le) = v.owned x i in
        let (kept, same) = released-other x g (λ t. absurd (omega (arith, t, le, newer))) e' in
        same ∙ v.copied x i (e' ∙ sym kept ∙ e) k;
  }

  ArePending-released :
      (lo : ℕ) (evs : List WriteEvent)
      → p.gen < lo
      → ArePending known s lo evs
      → ArePending known released_disk lo evs
  ArePending-released lo [] h q = tt
  ArePending-released lo (ev ∷ evs) h (a, v, q) = (
    a,
    IsHeld-released ev (omega (arith, a, h)) v,
    ArePending-released (ev.staged.gen + 1) evs (omega (arith, a, h)) q,
  )

-- A release of the oldest write keeps the rest of the queue held.
pub release-ArePending :
    (known : ℕ → Bool) (s : ShmDisk) (p : ShmExtent) (punch : ℕ → Option IoError)
    (evs : List WriteEvent)
    → IsValid s
    → ArePending known s (p.gen + 1) evs
    → ArePending known (release_if_current s (p ∷ []) punch).1 0 evs
release-ArePending known s p punch evs v q =
    ArePending-from known _ (p.gen + 1) 0 evs (omega arith) (
      release_own_cases (λ t. ArePending known t (p.gen + 1) evs) s p punch v.ordered q
        (λ b own. ArePending-released known s p v b own (p.gen + 1) evs (omega arith) q))
