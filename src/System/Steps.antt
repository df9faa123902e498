-- ===== src/System/Steps.antt =====
-- Each step of the writer keeps what holds of the parts together.
use tssniff.Prelude.{
  ℕ, zero, suc, ◌+◌, ◌-◌, ◌≤◌, ◌≡◌, refl, sym, ◌∙◌, ap, Bool, true, false, List, [], ◌∷◌, Option,
  some, arith, length, take, get_or, leb, inl, inr, ◌⊎◌, Bool-cases, take-nil,
}
use tssniff.Journal.{Ring, WriteRecord}
use tssniff.Events.{WriteEvent}
use tssniff.Shm.Io.{Io, IoError, Bytes, write_bytes}
use tssniff.Shm.Extents.Owner.{owner}
use tssniff.Shm.Disk.{ShmDisk, release_if_current}
use tssniff.Shm.Disk.Valid.{IsValid, release_if_current-IsValid}
use tssniff.Shm.Disk.View.{view}
use tssniff.Shm.Disk.Release.{view-release_at}
use tssniff.Writer.{Writer}
use tssniff.System.{in_range, covered, give_up, System, Promise, promise_settle, writer_of}
use tssniff.System.Pending.{IsHeld, ArePending, owner-covered}
use tssniff.System.Holds.{Holds, replay, replay-agree}
use tssniff.System.Served.{write_bytes-outside}
use tssniff.System.Settled.{ArePending-less, ArePending-from, release-ArePending}

take_long : (n : ℕ) (xs : List ℕ) → length xs ≤ n → take n xs ≡ xs
take_long n [] h = take-nil n
take_long zero (x ∷ xs) h = absurd (omega (arith, h))
take_long (suc n) (x ∷ xs) h = ap (◌∷◌ x) (take_long n xs (omega (arith, h)))

-- What is left of a promise is in it.
pub give_up-less :
    (evs : List WriteEvent) (start n : ℕ) (known : ℕ → Bool) (x : ℕ)
    → give_up evs start n known x ≡ true
    → (known x ≡ true) × ((covered evs x ≡ true) ⊎ (in_range start n x ≡ false))
unfolding give_up
give_up-less evs start n known x h = elim (Bool-cases (covered evs x)) [
  | inl c ↦ (ground (arith, h), inl c)
  | inr c ↦ (ground (arith, h), inr (ground (arith, h, c)))
]

-- An owned byte does not come from the image.
pub view-owned :
    (base base' : Bytes) (s : ShmDisk) (x g : ℕ)
    → owner x s.extents ≡ some g
    → view base s x ≡ view base' s x
view-owned base base' s x g e = rw e refl

-- The writer takes the oldest write.
module _ (s : System) (p : Promise) (ev : WriteEvent) (evs : List WriteEvent)
    (v : IsValid s.node.shm) (held : IsHeld p.known s.node.shm ev)
    (rest : ArePending p.known s.node.shm (ev.staged.gen + 1) evs)
    (visible : (x : ℕ) → p.known x ≡ true → view s.disk s.node.shm x ≡ p.byte x)
    (stored : (x : ℕ) → p.kept x ≡ true → replay s.disk (ev ∷ evs) x ≡ p.byte x) where
  abbrev pub settled : Writer → System
  settled w = record s {
    node = record s.node { shm = w.shm; submitted = evs };
    disk = w.disk;
    recent = w.recent;
  }

  -- What a part of the write changes in the image is hidden.
  view-part :
      (n x : ℕ)
      → view (write_bytes s.disk ev.offset (take n ev.bytes)) s.node.shm x
        ≡ view s.disk s.node.shm x
  view-part n x = elim (Bool-cases (in_range ev.offset (length ev.bytes) x)) [
    | inl i ↦
        let (g, own, le) = held.owned x i in
        view-owned (write_bytes s.disk ev.offset (take n ev.bytes)) s.disk s.node.shm x g own
    | inr i ↦ rw (write_bytes-outside s.disk ev.offset n ev.bytes x i) refl
  ]

  -- What the image has outside of the write is enough where the write is given up.
  stored-outside :
      (disk : Bytes)
      → ((x : ℕ) → in_range ev.offset (length ev.bytes) x ≡ false → disk x ≡ s.disk x)
      → (x : ℕ) → give_up evs ev.offset (length ev.bytes) p.kept x ≡ true
      → replay disk evs x ≡ p.byte x
  unfolding write_bytes
  stored-outside disk same x k =
      let (k', out) = give_up-less evs ev.offset (length ev.bytes) p.kept x k in
      replay-agree disk (write_bytes s.disk ev.offset ev.bytes) evs x
        (elim out [ inl c ↦ inl c | inr o ↦ inr (same x o ∙ ground (arith, o)) ])
      ∙ stored x k'

  -- No byte that stays promised is released with the write, but with the image in its place.
  view-released :
      (disk : Bytes) (fault : Option IoError) (x : ℕ)
      → view disk s.node.shm x ≡ p.byte x
      → (covered evs x ≡ true)
        ⊎ (in_range ev.offset (length ev.bytes) x ≡ false)
        ⊎ (disk x ≡ get_or ev.bytes (x - ev.offset) 0)
      → p.known x ≡ true
      → view disk (release_if_current s.node.shm (ev.staged ∷ []) (λ _. fault)).1 x ≡ p.byte x
  view-released disk fault x before out k =
      view-release_at disk s.node.shm ev.staged (λ _. fault) x v
        (λ own a b.
          let at : owner x s.node.shm.extents ≡ some ev.staged.gen = own x a b in
          let i : in_range ev.offset (length ev.bytes) x ≡ true =
            ground (arith, a, b, held.begins, held.ends) in
          elim out [
            | inl c ↦
                let (g, e, le) =
                  owner-covered p.known s.node.shm (ev.staged.gen + 1) evs x rest c in
                absurd (ground (arith, at, e, le))
            | inr (inl o) ↦ absurd (ground (arith, i, o))
            | inr (inr e) ↦ rw at (e ∙ sym (held.copied x i at k))
          ])
      ∙ before

  abbrev given_up : (ℕ → Bool) → ℕ → Bool
  given_up known = give_up evs ev.offset (length ev.bytes) known

  pub Holds-ts :
      (e : Option IoError)
      → Holds
          (settled (record (writer_of s) {
            shm = (release_if_current s.node.shm (ev.staged ∷ []) (λ _. e)).1;
          }))
          (record p { known = given_up p.known; kept = given_up p.kept })
  unfolding writer_of
  Holds-ts e = record {
    valid = release_if_current-IsValid s.node.shm (ev.staged ∷ []) (λ _. e) v;
    pending =
        ArePending-less p.known (given_up p.known) _ 0 evs
          (λ x k. (give_up-less evs ev.offset (length ev.bytes) p.known x k).0)
          (release-ArePending p.known s.node.shm ev.staged (λ _. e) evs v rest);
    visible = λ x k.
        let (k', out) = give_up-less evs ev.offset (length ev.bytes) p.known x k in
        view-released s.disk e x (visible x k') (elim out [ inl c ↦ inl c | inr o ↦ inr (inl o) ])
          k';
    stored = stored-outside s.disk (λ x o. refl);
  }

  -- The promise of a write of the image that took `io.count` bytes.
  stored-part :
      (io : Io) (x : ℕ)
      → (promise_settle (ev ∷ evs) false io p).kept x ≡ true
      → replay (write_bytes s.disk ev.offset (take io.count ev.bytes)) evs x ≡ p.byte x
  unfolding promise_settle
  stored-part io x k = elim (Bool-cases (leb (length ev.bytes) io.count)) [
    | inl full ↦
        rw (take_long io.count ev.bytes (ground (arith, full))) (stored x (ground (arith, k, full)))
    | inr short ↦
        stored-outside (write_bytes s.disk ev.offset (take io.count ev.bytes))
          (write_bytes-outside s.disk ev.offset io.count ev.bytes) x (ground (arith, k, short))
  ]

  promise_settle-kept :
      (io : Io)
      → promise_settle (ev ∷ evs) false io p
        ≡ record p { kept = (promise_settle (ev ∷ evs) false io p).kept }
  unfolding promise_settle
  promise_settle-kept io = elim (Bool-cases (leb (length ev.bytes) io.count)) [
    | inl e ↦ rw e refl
    | inr e ↦ rw e refl
  ]

  -- A write that is not MPEG-TS, before its release.
  pub Holds-part :
      (io : Io) (r : Ring WriteRecord)
      → Holds
          (settled (record (writer_of s) {
            disk = write_bytes s.disk ev.offset (take io.count ev.bytes);
            recent = r;
          }))
          (promise_settle (ev ∷ evs) false io p)
  unfolding writer_of
  Holds-part io r = rw (promise_settle-kept io) (record {
    valid = v;
    pending = ArePending-from p.known s.node.shm (ev.staged.gen + 1) 0 evs (omega arith) rest;
    visible = λ x k. view-part io.count x ∙ visible x k;
    stored = stored-part io;
  })

  -- And behind it.
  pub Holds-whole :
      (io : Io) (e : Option IoError) (r : Ring WriteRecord)
      → io.count ≡ length ev.bytes
      → Holds
          (settled (record (writer_of s) {
            disk = write_bytes s.disk ev.offset (take io.count ev.bytes);
            recent = r;
            shm = (release_if_current s.node.shm (ev.staged ∷ []) (λ _. e)).1;
          }))
          (promise_settle (ev ∷ evs) false io p)
  unfolding writer_of write_bytes
  Holds-whole io e r all = rw (promise_settle-kept io) (record {
    valid = release_if_current-IsValid s.node.shm (ev.staged ∷ []) (λ _. e) v;
    pending = release-ArePending p.known s.node.shm ev.staged (λ _. e) evs v rest;
    visible = λ x k.
        view-released (write_bytes s.disk ev.offset (take io.count ev.bytes)) e x
          (view-part io.count x ∙ visible x k)
          (elim (Bool-cases (in_range ev.offset (length ev.bytes) x)) [
            | inl i ↦
                inr
                  (inr (rw (take_long io.count ev.bytes (omega (arith, all))) (ground (arith, i))))
            | inr o ↦ inr (inl o)
          ])
          k;
    stored = stored-part io;
  })
