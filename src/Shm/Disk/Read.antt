-- ===== src/Shm/Disk/Read.antt =====
-- `ReadAt` returns the bytes of the view.
use tssniff.Prelude.{
  ℕ, zero, suc, ◌+◌, ◌-◌, ◌≤◌, ◌<◌, ◌≡◌, ◌⊎◌, refl, ◌∙◌, ap, List, [], ◌∷◌, Option, none, some,
  arith, leb, if◌then◌else◌, add_u64, inl, inr, Bool-cases, pos,
}
use tssniff.Ranges.{max_u64, min_u64}
use tssniff.Shm.Io.{eof, Io, Bytes, ok}
use tssniff.Shm.Extents.{ShmExtent}
use tssniff.Shm.Extents.Owner.{owner, owner_below, within, IsOrdered}
use tssniff.Shm.Disk.{
  ShmDisk, blit, copy_overlay, overlay_from, tabulate, listed, from_base, read_at,
}
use tssniff.Shm.Disk.Valid.{IsValid}
use tssniff.Shm.Disk.View.{view, seen}

-- A read of the overlay file that returns all its bytes.
abbrev pub full_read : ℕ → ℕ → Io
full_read a n = record { count = n; error = none }

-- Overlay bytes where a byte has an owner, and what was in the destination elsewhere.
abbrev Overlaid : Bytes → ℕ → ℕ → List ShmExtent → Bytes → Bytes → Type 0
Overlaid content start req_end es dst dst' =
    (i : ℕ)
    → start + i < req_end
    → dst' i ≡ seen (dst i) (content (start + i)) (owner (start + i) es)

-- One copied extent: the rest of the list has none of its bytes.
blit_step :
    (content : Bytes) (start req_end i : ℕ) (dst : Bytes) (e : ShmExtent) (o : Option ℕ)
    → start + i < req_end
    → (start + i < e.end → o ≡ none)
    → let a = max_u64 start e.start in
      seen (blit content a (a - start) (min_u64 req_end e.end - a) dst i) (content (start + i)) o
      ≡ seen (dst i) (content (start + i)) (if within (start + i) e then some e.gen else o)
unfolding blit max_u64 min_u64
blit_step content start req_end i dst e o h k = ground (arith, shift)
  where
    shift :
        (a : ℕ) → start ≤ a → a - start ≤ i → content (a + (i - (a - start))) ≡ content (start + i)
    shift a p q = ap content (omega arith)

copy_full :
    (content : Bytes) (start a b : ℕ) (dst : Bytes)
    → copy_overlay content start a b (full_read a (b - a)) dst
      ≡ ok (blit content a (a - start) (b - a) dst)
unfolding copy_overlay
copy_full content start a b dst = ground arith

overlay_from_reads :
    (content : Bytes) (start req_end lo : ℕ) (es : List ShmExtent) (dst : Bytes)
    → IsOrdered lo es
    → (dst' : Bytes) × (overlay_from content full_read start req_end es dst ≡ ok dst')
      × Overlaid content start req_end es dst dst'
unfolding overlay_from
overlay_from_reads content start req_end lo [] dst s = (dst, refl, λ i h. refl)
overlay_from_reads content start req_end lo (e ∷ es) dst (p, q, s) =
    elim (Bool-cases (leb e.end start)) [
      | inl f ↦
          let (dst', r, o) = overlay_from_reads content start req_end e.end es dst s in
          (dst', rw (f, overlay_from) r, λ i h. ground (arith, o i h))
      | inr f ↦ elim (Bool-cases (leb req_end e.start)) [
        | inl g ↦ (
          dst,
          rw (f, g, overlay_from),
          λ i h. ground (arith, owner_below (start + i) e.end es s),
        )
        | inr g ↦ elim (Bool-cases (leb (min_u64 req_end e.end) (max_u64 start e.start))) [
          | inl k ↦
              let (dst', r, o) = overlay_from_reads content start req_end e.end es dst s in
              (dst', rw (f, g, k, overlay_from) r, λ i h. absurd (ground arith))
          | inr k ↦
              let a = max_u64 start e.start in
              let n = min_u64 req_end e.end - a in
              let (dst', r, o) =
                overlay_from_reads content start req_end e.end es (blit content a (a - start) n dst)
                  s in
              (
                dst',
                rw (f, g, k, overlay_from, copy_full content start a (min_u64 req_end e.end) dst) r,
                λ i h.
                    o i h
                    ∙ blit_step content start req_end i dst e (owner (start + i) es) h
                        (owner_below (start + i) e.end es s),
              )
        ]
      ]
    ]

pub tabulate_same :
    (n i : ℕ) (f g : Bytes) → ((j : ℕ) → j < i + n → f j ≡ g j) → tabulate n i f ≡ tabulate n i g
unfolding tabulate
tabulate_same zero i f g h = refl
tabulate_same (suc n) i f g h =
    cc (h i (omega arith), tabulate_same n (i + 1) f g (λ j k. h j (omega arith)))

from_base_lem :
    (base : Bytes) (start : ℕ) (io : Io) (i : ℕ)
    → ((j : ℕ) → io.count ≤ j → base (start + j) ≡ 0)
    → from_base base start io i ≡ base (start + i)
unfolding from_base
from_base_lem base start io i zeros = ground (arith, zeros i)

module _ (base : Bytes) (s : ShmDisk) (v : IsValid s) where
  -- The loop over the extents and the list that is returned, once the image was read.
  read_overlay :
      (start len : ℕ) (dst : Bytes)
      → start + len ≤ s.size
      → ((i : ℕ) → dst i ≡ base (start + i))
      → listed len (overlay_from s.content full_read start (add_u64 start len) s.extents dst)
        ≡ ok (tabulate len 0 (λ i. view base s (start + i)))
  read_overlay start len dst q h =
      let end : add_u64 start len ≡ start + len = omega (arith, v.small) in
      let (dst', r, o) =
        overlay_from_reads s.content start (start + len) 0 s.extents dst v.ordered in
      rw (end, r)
        (ap ok (
          tabulate_same len 0 dst' (λ i. view base s (start + i))
            (λ j k. ground (arith, o j, h j))))

  -- A nonempty `ReadAt` within a valid volume, when the read of the image ends without an error
  -- or with EOF (the image being zero past what was read) and the overlay's reads are complete,
  -- returns for every byte what a reader should see: the overlay's byte if it has an owner,
  -- else that of the image.
  pub read_at-view :
      (base_io : Io) (len start : ℕ)
      → 0 < len
      → start + len ≤ s.size
      → (base_io.error ≡ none) ⊎ (base_io.error ≡ some eof)
      → ((i : ℕ) → base_io.count ≤ i → base (start + i) ≡ 0)
      → read_at base base_io full_read s len (pos start)
        ≡ ok (tabulate len 0 (λ i. view base s (start + i)))
  unfolding read_at
  read_at-view base_io len start p q e zeros = elim (Bool-cases s.closed) [
    | inl c ↦
        let plain =
          tabulate_same len 0 (from_base base start base_io) (λ i. view base s (start + i))
            (λ j k. rw (v.gone c) (from_base_lem base start base_io j zeros)) in
        ground (arith, plain)
    | inr c ↦ ground (
      arith,
      read_overlay start len (from_base base start base_io) q
          (λ j. from_base_lem base start base_io j zeros),
    )
  ]
