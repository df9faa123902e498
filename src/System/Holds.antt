-- ===== src/System/Holds.antt =====
-- What holds of the parts together, for what the disk should have.
use tssniff.Prelude.{
  ℕ, ◌≡◌, refl, true, false, inl, inr, ◌⊎◌, Bool-cases, arith, List, [], ◌∷◌, ◌++◌,
}
use tssniff.Events.{WriteEvent}
use tssniff.Shm.Io.{Bytes, write_bytes}
use tssniff.Shm.Disk.Valid.{IsValid}
use tssniff.Shm.Disk.View.{view}
use tssniff.System.{System, Promise, covered}
use tssniff.System.Pending.{ArePending}

-- The image once the writes of the queue are in it.
abbrev pub replay : Bytes → List WriteEvent → Bytes
replay disk [] = disk
replay disk (ev ∷ evs) = replay (write_bytes disk ev.offset ev.bytes) evs

pub replay-append :
    (disk : Bytes) (evs : List WriteEvent) (ev : WriteEvent)
    → replay disk (evs ++ (ev ∷ [])) ≡ write_bytes (replay disk evs) ev.offset ev.bytes
replay-append disk [] ev = refl
replay-append disk (e ∷ evs) ev = replay-append (write_bytes disk e.offset e.bytes) evs ev

-- A reader sees the known bytes, and the image has the kept ones as soon as the queue is in it.
pub record Holds (s : System) (p : Promise) : Type 0 where
  pub valid : IsValid s.node.shm
  pub pending : ArePending p.known s.node.shm 0 s.node.submitted
  pub visible : (x : ℕ) → p.known x ≡ true → view s.disk s.node.shm x ≡ p.byte x
  pub stored : (x : ℕ) → p.kept x ≡ true → replay s.disk s.node.submitted x ≡ p.byte x

-- What the image had counts only where no write of the queue covers it.
pub replay-agree :
    (disk disk' : Bytes) (evs : List WriteEvent) (x : ℕ)
    → (covered evs x ≡ true) ⊎ (disk x ≡ disk' x)
    → replay disk evs x ≡ replay disk' evs x
unfolding covered write_bytes
replay-agree disk disk' [] x (inl e) = cc
replay-agree disk disk' [] x (inr e) = e
replay-agree disk disk' (ev ∷ evs) x h =
    replay-agree (write_bytes disk ev.offset ev.bytes) (write_bytes disk' ev.offset ev.bytes) evs x
      (elim (Bool-cases (covered evs x)) [ inl c ↦ inl c | inr c ↦ inr (agree h c) ])
  where
    agree :
        (covered (ev ∷ evs) x ≡ true) ⊎ (disk x ≡ disk' x)
        → covered evs x ≡ false
        → write_bytes disk ev.offset ev.bytes x ≡ write_bytes disk' ev.offset ev.bytes x
    agree (inl e) c = ground (arith, e, c)
    agree (inr e) c = ground (arith, e)
