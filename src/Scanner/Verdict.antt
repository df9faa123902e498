-- ===== src/Scanner/Verdict.antt =====
-- What `Feed` answers, what it hands out and what it keeps, on every branch.
use tssniff.Prelude.{
  ℕ, ◌+◌, ◌^◌, ◌≤◌, ◌<◌, ◌≡◌, refl, ap, subst, Bool, true, false, ◌&&◌, List, [], ◌∷◌, Option, none,
  some, arith, if◌then◌else◌, length, inl, inr, Bool-cases, Option-cases,
}
use tssniff.Scanner.{TsScanner, TsChunk, find_mpegts, advance, keep_tail, emit, Fed, emitted, feed}
use tssniff.Scanner.Find.{IsFirstSync, find_mpegts-IsFirstSync}
use tssniff.Scanner.Chunks.{
  buffer_end, advance_within, keep_tail-Keeps, AreChunksOf, AreChunksOf-advance, emit-AreChunksOf,
}
use tssniff.Scanner.Feed.{
  IsValid, emit-IsValid, continues, looked_at, buffer_end-looked_at, feed_lem, feed_empty,
}

-- The three ways in which a write that is not empty ends.
feed_cases :
    (P : Fed → Type 0) (s : TsScanner) (off : ℕ) (bytes : List ℕ)
    → IsValid s
    → 0 < length bytes
    → off + length bytes < 2 ^ 64
    → let j = looked_at s off bytes in
      ((s.detected && continues s off) ≡ true → P (emitted j))
      → ((s.detected && continues s off) ≡ false
          → find_mpegts j.buffer ≡ none
          → P ([], false, if s.detected then s else keep_tail j))
      → ((idx : ℕ)
          → (s.detected && continues s off) ≡ false
          → find_mpegts j.buffer ≡ some idx
          → P (emitted (record (advance idx j) { detected = true })))
      → P (feed s off bytes)
feed_cases P s off bytes v n w more lost found =
    let j = looked_at s off bytes in
    rw (feed_lem s off bytes v n w) (elim (Bool-cases (s.detected && continues s off)) [
      | inl c ↦ rw c (more c)
      | inr c ↦ elim (Option-cases (find_mpegts j.buffer)) [
        | inl f ↦ rw (c, f) (lost c f)
        | inr (idx, f) ↦ rw (c, f) (found idx c f)
      ]
    ])

-- The sync that is found lies within the buffer.
sync_within : (bytes : List ℕ) (idx : ℕ) → find_mpegts bytes ≡ some idx → idx ≤ length bytes
sync_within bytes idx f =
    let first = subst (IsFirstSync bytes) f (find_mpegts-IsFirstSync bytes) in
    omega (arith, first.0)

abbrev pub is_some {ℓ} : {A : Type ℓ} → Option A → Bool
is_some none = false
is_some (some a) = true

detect : TsScanner → TsScanner
detect s = record s { detected = true }

detect-AreChunksOf :
    (s : TsScanner) (lo : ℕ) (cs : List TsChunk)
    → AreChunksOf (detect s) lo cs
    → AreChunksOf s lo cs
unfolding detect
detect-AreChunksOf s lo [] h = tt
detect-AreChunksOf s lo (c ∷ cs) (a, v, r) = (
  a,
  record {
    packets = v.packets;
    some_packets = v.some_packets;
    few_packets = v.few_packets;
    size = v.size;
    valid = v.valid;
    from = v.from;
    width = v.width;
    inside = v.inside;
    copied = v.copied;
  },
  detect-AreChunksOf s c.end cs r,
)

AreChunksOf-mono :
    (s : TsScanner) (lo lo' : ℕ) (cs : List TsChunk)
    → lo' ≤ lo
    → AreChunksOf s lo cs
    → AreChunksOf s lo' cs
AreChunksOf-mono s lo lo' [] h a = tt
AreChunksOf-mono s lo lo' (c ∷ cs) h (l, v, r) = (omega arith, v, r)

-- The scanner behind a new sync is placed as before.
module _ (j : TsScanner) (idx : ℕ) (f : find_mpegts j.buffer ≡ some idx)
    (w : buffer_end j < 2 ^ 64) where
  cut_at : TsScanner
  cut_at = detect (advance idx j)

  cut_at_place :
      (buffer_end cut_at ≡ buffer_end j)
      × (cut_at.buffer_start ≡ j.buffer_start + idx)
      × (cut_at.expected ≡ j.expected)
      × (cut_at.have_expected ≡ j.have_expected)
  unfolding cut_at detect
  cut_at_place = let a = advance_within idx j (sync_within j.buffer idx f) w in (a.1, a.0, a.2, a.3)

  cut_at-AreChunksOf : AreChunksOf j j.buffer_start (emit cut_at).0
  unfolding cut_at
  cut_at-AreChunksOf = AreChunksOf-mono j _ j.buffer_start _ (omega (arith, cut_at_place)) (
      AreChunksOf-advance idx j _ _ (sync_within j.buffer idx f) w (
        detect-AreChunksOf (advance idx j) _ _
          (emit-AreChunksOf (detect (advance idx j)) (omega (arith, cut_at_place)))))

keep_tail-IsValid :
    (s : TsScanner)
    → buffer_end s < 2 ^ 64
    → buffer_end s ≡ s.expected
    → s.have_expected ≡ true
    → IsValid (keep_tail s)
keep_tail-IsValid s w p h =
    let k = keep_tail-Keeps s w in
    record {
      tail = k.tail;
      small = omega (arith, k.end_same);
      placed = λ _. omega (arith, k.end_same, k.expected_same);
      fresh = λ f. cc (k.have_same, h);
    }

either : (b : Bool) (s t : TsScanner) → IsValid s → IsValid t → IsValid (if b then s else t)
either true s t v w = v
either false s t v w = w

-- `Feed` keeps a scanner valid (its buffer is a tail shorter than the probe window, it ends
-- where the next write is expected, and before the first write it is empty), for a write below
-- the address limit.
pub feed-IsValid :
    (s : TsScanner) (off : ℕ) (bytes : List ℕ)
    → IsValid s
    → off + length bytes < 2 ^ 64
    → IsValid (feed s off bytes).2
unfolding emitted detect
feed-IsValid s off [] v w = rw (feed_empty s off) v
feed-IsValid s off (b ∷ bytes) v w =
    let j = looked_at s off (b ∷ bytes) in
    let e = buffer_end-looked_at s off (b ∷ bytes) v w in
    let p : buffer_end j ≡ j.expected = omega arith in
    feed_cases (λ r. IsValid r.2) s off (b ∷ bytes) v (omega arith) w
      (λ c. emit-IsValid j (omega arith) p refl)
      (λ c f. either s.detected s (keep_tail j) v (keep_tail-IsValid j (omega arith) p refl))
      (λ idx c f.
        let k = cut_at_place j idx f (omega arith) in
        unfold cut_at in
        emit-IsValid (cut_at j idx f (omega arith)) (omega arith) (omega arith) k.3)

-- The chunks of a `Feed` on a valid scanner, for a write below the address limit: each is
-- between 1 and 128 valid packets, its bytes are those that the buffer holds at the chunk's
-- physical place, and the chunks stand one behind the other within the buffer that the write is
-- looked at in.
pub feed-AreChunksOf :
    (s : TsScanner) (off : ℕ) (bytes : List ℕ)
    → IsValid s
    → off + length bytes < 2 ^ 64
    → AreChunksOf (looked_at s off bytes) (looked_at s off bytes).buffer_start (feed s off bytes).0
unfolding emitted detect
feed-AreChunksOf s off [] v w = rw (feed_empty s off) tt
feed-AreChunksOf s off (b ∷ bytes) v w =
    let j = looked_at s off (b ∷ bytes) in
    let e = buffer_end-looked_at s off (b ∷ bytes) v w in
    feed_cases (λ r. AreChunksOf j j.buffer_start r.0) s off (b ∷ bytes) v (omega arith) w
      (λ c. emit-AreChunksOf j (omega arith)) (λ c f. tt)
      (λ idx c f. unfold cut_at in cut_at-AreChunksOf j idx f (omega arith))

-- A write that a valid scanner does not take for MPEG-TS yields no chunk, if the write ends
-- below the address limit.
pub feed_refused :
    (s : TsScanner) (off : ℕ) (bytes : List ℕ)
    → IsValid s
    → off + length bytes < 2 ^ 64
    → (feed s off bytes).1 ≡ false
    → (feed s off bytes).0 ≡ []
unfolding emitted
feed_refused s off [] v w h = ap (λ (r : Fed). r.0) (feed_empty s off)
feed_refused s off (b ∷ bytes) v w h =
    feed_cases (λ r. r.1 ≡ false → r.0 ≡ []) s off (b ∷ bytes) v (omega arith) w (λ c e. cc)
      (λ c f e. refl) (λ idx c f e. cc) h
