-- ===== src/System/Pending.antt =====
-- The writes that the writer has not taken yet, and the overlay: each is staged, or was replaced by
-- a newer one, byte for byte.
use tssniff.Prelude.{
  ℕ, ◌+◌, ◌-◌, ◌≤◌, ◌<◌, ◌≡◌, Bool, true, List, [], ◌∷◌, ◌++◌, some, arith, length, get_or, ◌⊎◌,
  inl, inr, Bool-cases, sym, ◌∙◌,
}
use tssniff.Events.{WriteEvent}
use tssniff.Shm.Extents.Owner.{owner}
use tssniff.Shm.Disk.{ShmDisk}
use tssniff.System.{in_range, covered}

-- Each byte of the write is owned by its generation or a later one. Where it is its own, and the
-- byte is known, the overlay has it.
pub record IsHeld (known : ℕ → Bool) (s : ShmDisk) (ev : WriteEvent) : Type 0 where
  pub begins : ev.staged.start ≡ ev.offset
  pub ends : ev.staged.end ≡ ev.offset + length ev.bytes
  pub issued : ev.staged.gen < s.next_gen
  pub owned :
      (x : ℕ)
      → in_range ev.offset (length ev.bytes) x ≡ true
      → (g : ℕ) × (owner x s.extents ≡ some g) × (ev.staged.gen ≤ g)
  pub copied :
      (x : ℕ)
      → in_range ev.offset (length ev.bytes) x ≡ true
      → owner x s.extents ≡ some ev.staged.gen
      → known x ≡ true
      → s.content x ≡ get_or ev.bytes (x - ev.offset) 0

-- The writes are held, with growing generations from `lo` on.
abbrev pub ArePending : (ℕ → Bool) → ShmDisk → ℕ → List WriteEvent → Type 0
ArePending known s lo [] = Unit {0}
ArePending known s lo (ev ∷ evs) =
    (lo ≤ ev.staged.gen) × IsHeld known s ev × ArePending known s (ev.staged.gen + 1) evs

-- A byte that a write in the queue has is owned by a generation of the queue or a later one.
pub owner-covered :
    (known : ℕ → Bool) (s : ShmDisk) (lo : ℕ) (evs : List WriteEvent) (x : ℕ)
    → ArePending known s lo evs
    → covered evs x ≡ true
    → (g : ℕ) × (owner x s.extents ≡ some g) × (lo ≤ g)
unfolding covered
owner-covered known s lo [] x held h = cc
owner-covered known s lo (ev ∷ evs) x (newer, held, rest) h =
    elim (Bool-cases (in_range ev.offset (length ev.bytes) x)) [
      | inl e ↦ let (g, own, le) = held.owned x e in (g, own, omega (arith, newer, le))
      | inr e ↦
          let (g, own, le) =
            owner-covered known s (ev.staged.gen + 1) evs x rest (ground (arith, e, h)) in
          (g, own, omega (arith, newer, le))
    ]

-- A change of the overlay that gives bytes to a new generation only, and leaves the known bytes of
-- the others as they are.
pub record Extends (known known' : ℕ → Bool) (s s' : ShmDisk) : Type 0 where
  pub grows : s.next_gen ≤ s'.next_gen
  pub fresh :
      (x : ℕ) → (owner x s'.extents ≡ owner x s.extents) ⊎ (owner x s'.extents ≡ some s.next_gen)
  pub same :
      (x g : ℕ)
      → owner x s'.extents ≡ some g
      → g < s.next_gen
      → known' x ≡ true
      → (known x ≡ true) × (s'.content x ≡ s.content x)

module _ (known known' : ℕ → Bool) (s s' : ShmDisk) (x : Extends known known' s s') where
  IsHeld-extends : (ev : WriteEvent) → IsHeld known s ev → IsHeld known' s' ev
  IsHeld-extends ev v = record {
    begins = v.begins;
    ends = v.ends;
    issued = omega (arith, v.issued, x.grows);
    owned = λ y h.
        let (g, own, le) = v.owned y h in
        elim (x.fresh y) [
          | inl e ↦ (g, e ∙ own, le)
          | inr e ↦ (s.next_gen, e, omega (arith, v.issued))
        ];
    copied = λ y h e k.
        let (k', c) = x.same y ev.staged.gen e v.issued k in
        elim (x.fresh y) [
          | inl e' ↦ c ∙ v.copied y h (sym e' ∙ e) k'
          | inr e' ↦ absurd (ground (arith, e, e', v.issued))
        ];
  }

  pub ArePending-extends :
      (lo : ℕ) (evs : List WriteEvent) → ArePending known s lo evs → ArePending known' s' lo evs
  ArePending-extends lo [] p = tt
  ArePending-extends lo (ev ∷ evs) (a, v, p) =
      (a, IsHeld-extends ev v, ArePending-extends (ev.staged.gen + 1) evs p)

abbrev pub AllBelow : ℕ → List WriteEvent → Type 0
AllBelow n [] = Unit {0}
AllBelow n (ev ∷ evs) = (ev.staged.gen < n) × AllBelow n evs

pub ArePending-AllBelow :
    (known : ℕ → Bool) (s : ShmDisk) (lo : ℕ) (evs : List WriteEvent)
    → ArePending known s lo evs
    → AllBelow s.next_gen evs
ArePending-AllBelow known s lo [] p = tt
ArePending-AllBelow known s lo (ev ∷ evs) (a, v, p) =
    (v.issued, ArePending-AllBelow known s (ev.staged.gen + 1) evs p)

-- A new write comes last.
pub ArePending-add :
    (known : ℕ → Bool) (s : ShmDisk) (lo : ℕ) (evs : List WriteEvent) (ev : WriteEvent)
    → ArePending known s lo evs
    → lo ≤ ev.staged.gen
    → AllBelow ev.staged.gen evs
    → IsHeld known s ev
    → ArePending known s lo (evs ++ (ev ∷ []))
ArePending-add known s lo [] ev p a b v = (a, v, tt)
ArePending-add known s lo (e ∷ evs) ev (c, w, p) a (b, bs) v =
    (c, w, ArePending-add known s (e.staged.gen + 1) evs ev p (omega (arith, b)) bs v)
