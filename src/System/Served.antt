-- ===== src/System/Served.antt =====
-- A request to write, as a step of the parts together.
use tssniff.Prelude.{
  ℕ, ◌+◌, ◌^◌, ◌<◌, ◌≡◌, refl, ap, Bool, true, false, List, arith, length, length-take, take, ◌==◌,
  inl, inr, ◌⊎◌, Bool-cases, add_u64,
}
use tssniff.Shm.Io.{Io, Bytes, write_bytes, Result, ok, err, ShmError}
use tssniff.Shm.Extents.{ShmExtent}
use tssniff.Shm.Extents.Owner.{owner}
use tssniff.Shm.Extents.Replace.{owner-replace_range}
use tssniff.Shm.Disk.{ShmDisk, stage_write}
use tssniff.Shm.Disk.Valid.{IsValid}
use tssniff.Shm.Disk.View.{stage_write-ok, stage_write_nothing}
use tssniff.System.{in_range}
use tssniff.System.Pending.{Extends}

pub write_bytes-outside :
    (content : Bytes) (off n : ℕ) (bytes : List ℕ) (x : ℕ)
    → in_range off (length bytes) x ≡ false
    → write_bytes content off (take n bytes) x ≡ content x
unfolding write_bytes
write_bytes-outside content off n bytes x h = ground (arith, length-take n bytes)

pub result_cases :
    (r : Result ShmExtent) → ((e : ShmExtent) × (r ≡ ok e)) ⊎ ((e : ShmError) × (r ≡ err e))
result_cases (ok e) = inl (e, refl)
result_cases (err e) = inr (e, refl)

-- A `StageWrite` that fails leaves the extents, and the content outside of its range.
pub stage_write-err :
    (s : ShmDisk) (bytes : List ℕ) (off : ℕ) (io : Io) {e : ShmError}
    → (stage_write s bytes off io).0 ≡ err e
    → let s' = (stage_write s bytes off io).1 in
      (s'.extents ≡ s.extents)
      × (s'.next_gen ≡ s.next_gen)
      × ((x : ℕ) → in_range off (length bytes) x ≡ false → s'.content x ≡ s.content x)
unfolding stage_write
stage_write-err s bytes off io h = ground (arith, write_bytes-outside s.content off io.count bytes)

-- Where a request is known behind it: as before outside of its range, and inside only if it went
-- through.
abbrev Follows : (ℕ → Bool) → (ℕ → Bool) → List ℕ → ℕ → Result ShmExtent → Type 0
Follows known known' bytes start r =
    (x : ℕ)
    → known' x ≡ true
    → ((in_range start (length bytes) x ≡ false) × (known x ≡ true))
      ⊎ ((in_range start (length bytes) x ≡ true) × (e : ShmExtent) × (r ≡ ok e))

module _ (known known' : ℕ → Bool) (s : ShmDisk) (bytes : List ℕ) (start : ℕ) (io : Io)
    (v : IsValid s) (w : s.next_gen + 1 < 2 ^ 64)
    (follows : Follows known known' bytes start (stage_write s bytes start io).0) where
  failed-Extends :
      {e : ShmError}
      → (stage_write s bytes start io).0 ≡ err e
      → Extends known known' s (stage_write s bytes start io).1
  failed-Extends h =
      let (es, gen, out) = stage_write-err s bytes start io h in
      record {
        grows = omega (arith, gen);
        fresh = λ x. inl (ap (owner x) es);
        same = λ x g e below k. elim (follows x k) [
          | inl (o, k') ↦ (k', out x o)
          | inr (_, _, b) ↦ absurd (cc)
        ];
      }

  nothing-Extends : length bytes ≡ 0 → Extends known known' s (stage_write s bytes start io).1
  nothing-Extends h = rw (stage_write_nothing s bytes start io h) (record {
    grows = omega arith;
    fresh = λ x. inl refl;
    same = λ x g e below k. elim (follows x k) [
      | inl (o, k') ↦ (k', refl)
      | inr (i, _, _) ↦ absurd (ground (arith, h, i))
    ];
  })

  done-Extends :
      {e : ShmExtent}
      → (stage_write s bytes start io).0 ≡ ok e
      → 0 < length bytes
      → Extends known known' s (stage_write s bytes start io).1
  unfolding write_bytes
  done-Extends h p =
      let made = stage_write-ok s bytes start io v p h in
      let n : ShmExtent = record { start = start; end = start + length bytes; gen = s.next_gen } in
      let owners = owner-replace_range n s.extents (omega (arith, p)) v.ordered in
      let gens : add_u64 s.next_gen 1 ≡ s.next_gen + 1 = ground (arith, w) in
      rw (made.3, made.0, gens)
        (record {
          grows = omega arith;
          fresh = λ x. ground (arith, owners x);
          same = λ x g e below k. elim (follows x k) [
            | inl (o, k') ↦ (k', ground (arith, o))
            | inr (i, _, _) ↦ absurd (ground (arith, owners x, e, below, i))
          ];
        })

  pub stage_write-Extends : Extends known known' s (stage_write s bytes start io).1
  stage_write-Extends = elim (Bool-cases (length bytes == 0)) [
    | inl z ↦ nothing-Extends (ground (arith, z))
    | inr z ↦ elim (result_cases (stage_write s bytes start io).0) [
      | inl (e, h) ↦ done-Extends h (ground (arith, z))
      | inr (e, h) ↦ failed-Extends h
    ]
  ]
