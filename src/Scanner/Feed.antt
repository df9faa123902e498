-- ===== src/Scanner/Feed.antt =====
-- `Feed`: the invariant of the scanner, its verdict on every branch, and what its chunks are.
use tssniff.Prelude.{
  ℕ, ◌+◌, ◌^◌, ◌≤◌, ◌<◌, ◌≡◌, refl, ◌∙◌, ap, Bool, true, false, not, ◌&&◌, ◌||◌, List, [], ◌++◌,
  none, some, arith, ltb, ◌==◌, if◌then◌else◌, add_u64, length, drop, inl, inr, Bool-cases,
  Option-cases, length-append,
}
use tssniff.Scanner.{
  ts_tail_size, TsScanner, new_ts_scanner, find_mpegts, advance, keep_tail, emit, reset, Fed,
  emitted, feed_detected, feed_probing, feed,
}
use tssniff.Scanner.Emit.{skip_lem}
use tssniff.Scanner.Chunks.{buffer_end, emit-Keeps}

-- The buffer is a short tail of the bytes up to `expected`; before the first write it is empty.
pub record IsValid (s : TsScanner) : Type 0 where
  pub tail : length s.buffer ≤ ts_tail_size
  pub small : buffer_end s < 2 ^ 64
  pub placed : s.have_expected ≡ true → buffer_end s ≡ s.expected
  pub fresh : s.have_expected ≡ false → (s.buffer ≡ []) × (s.detected ≡ false)

pub new_ts_scanner-IsValid : IsValid new_ts_scanner
unfolding new_ts_scanner
new_ts_scanner-IsValid = record {
  tail = omega arith;
  small = omega arith;
  placed = λ h. cc;
  fresh = λ h. (refl, refl);
}

-- What `emit` leaves of a scanner that is placed.
pub emit-IsValid :
    (s : TsScanner)
    → buffer_end s < 2 ^ 64
    → buffer_end s ≡ s.expected
    → s.have_expected ≡ true
    → IsValid (emit s).1
emit-IsValid s w p h =
    let k = emit-Keeps s w in
    record {
      tail = k.tail;
      small = omega (arith, k.end_same);
      placed = λ _. omega (arith, k.end_same, k.expected_same);
      fresh = λ f. cc (k.have_same, h);
    }

-- The buffer that a write is looked at in: behind the bytes that it continues, or by itself.
abbrev pub continues : TsScanner → ℕ → Bool
continues s off = s.have_expected && off == s.expected

abbrev pub looked_at : TsScanner → ℕ → List ℕ → TsScanner
looked_at s off bytes = record {
  buffer = if continues s off then s.buffer ++ bytes else bytes;
  buffer_start = if continues s off then s.buffer_start else off;
  expected = add_u64 off (length bytes);
  have_expected = true;
  detected = s.detected;
}

pub buffer_end-looked_at :
    (s : TsScanner) (off : ℕ) (bytes : List ℕ)
    → IsValid s
    → off + length bytes < 2 ^ 64
    → buffer_end (looked_at s off bytes) ≡ off + length bytes
buffer_end-looked_at s off bytes v w = ground (arith, v.placed, length-append s.buffer bytes)

-- The one rule that both halves of `Feed` follow.
abbrev pub feed_outcome : TsScanner → ℕ → List ℕ → Fed
feed_outcome s off bytes =
    let j = looked_at s off bytes in
    if s.detected && continues s off then emitted j else elim (find_mpegts j.buffer) [
      | none ↦ ([], false, if s.detected then s else keep_tail j)
      | some idx ↦ emitted (record (advance idx j) { detected = true })
    ]

-- The scanner that `Feed` emits from when the write continues the stream.
same_continued :
    (s : TsScanner) (off : ℕ) (bytes : List ℕ)
    → s.have_expected ≡ true
    → (off == s.expected) ≡ true
    → ◌≡◌ {A = TsScanner}
        (record s { buffer = s.buffer ++ bytes; expected = add_u64 off (length bytes) })
        (looked_at s off bytes)
same_continued s off bytes h e = ground arith

-- The scanner that `Feed` emits from when it finds another segment.
same_segment :
    (s : TsScanner) (off idx : ℕ) (bytes : List ℕ)
    → s.detected ≡ true
    → s.have_expected ≡ true
    → (off == s.expected) ≡ false
    → ◌≡◌ {A = TsScanner}
        (record s {
          buffer = drop idx bytes;
          buffer_start = add_u64 off idx;
          expected = add_u64 off (length bytes);
        })
        (record (advance idx (looked_at s off bytes)) { detected = true })
unfolding advance
same_segment s off idx bytes d h e = ground arith

-- The scanner that `Feed` probes with, behind the reset that a gap brings.
same_probed :
    (s : TsScanner) (off : ℕ) (bytes : List ℕ)
    → s.detected ≡ false
    → let t = if not s.have_expected || not (off == s.expected) then reset off s else s in
      ◌≡◌ {A = TsScanner}
        (record t { buffer = t.buffer ++ bytes; expected = add_u64 off (length bytes) })
        (looked_at s off bytes)
unfolding reset
same_probed s off bytes d = ground arith

feed_detected_lem :
    (s : TsScanner) (off : ℕ) (bytes : List ℕ)
    → s.detected ≡ true
    → s.have_expected ≡ true
    → feed_detected s off bytes ≡ feed_outcome s off bytes
unfolding feed_detected
feed_detected_lem s off bytes d h = elim (Bool-cases (off == s.expected)) [
  | inl e ↦ ground (arith, same_continued s off bytes h e)
  | inr e ↦ elim (Option-cases (find_mpegts bytes)) [
    | inl f ↦ ground arith
    | inr (idx, f) ↦ ground (arith, same_segment s off idx bytes d h e)
  ]
]

-- What `Feed` does with the buffer that it probes.
abbrev probed : TsScanner → Fed
probed j = elim (find_mpegts j.buffer) [
  | none ↦ ([], false, keep_tail j)
  | some idx ↦
      let t = if ltb 0 idx then advance idx j else j in emitted (record t { detected = true })
]

probed_lem :
    (s : TsScanner) (off : ℕ) (bytes : List ℕ)
    → s.detected ≡ false
    → (looked_at s off bytes).buffer_start < 2 ^ 64
    → probed (looked_at s off bytes) ≡ feed_outcome s off bytes
probed_lem s off bytes d w =
    let j = looked_at s off bytes in
    elim (Option-cases (find_mpegts j.buffer)) [
      | inl f ↦ ground arith
      | inr (idx, f) ↦ ground (arith, skip_lem idx j w)
    ]

feed_probing_lem :
    (s : TsScanner) (off : ℕ) (bytes : List ℕ)
    → s.detected ≡ false
    → (looked_at s off bytes).buffer_start < 2 ^ 64
    → feed_probing
        (if not s.have_expected || not (off == s.expected) then reset off s else s)
        off
        bytes
      ≡ feed_outcome s off bytes
unfolding feed_probing
feed_probing_lem s off bytes d w =
    ap probed (same_probed s off bytes d) ∙ probed_lem s off bytes d w

detected-have : {s : TsScanner} → IsValid s → s.detected ≡ true → s.have_expected ≡ true
detected-have {s} v d = elim (Bool-cases s.have_expected) [ inl h ↦ h | inr h ↦ cc ((v.fresh h).1) ]

pub feed_lem :
    (s : TsScanner) (off : ℕ) (bytes : List ℕ)
    → IsValid s
    → 0 < length bytes
    → off + length bytes < 2 ^ 64
    → feed s off bytes ≡ feed_outcome s off bytes
unfolding feed
feed_lem s off bytes v n w =
    let place = buffer_end-looked_at s off bytes v w in
    elim (Bool-cases s.detected) [
      | inl d ↦ ground (arith, feed_detected_lem s off bytes d (detected-have v d))
      | inr d ↦ ground (arith, feed_probing_lem s off bytes d (omega arith))
    ]

-- An empty write changes nothing.
pub feed_empty : (s : TsScanner) (off : ℕ) → feed s off [] ≡ ([], s.detected, s)
unfolding feed
feed_empty s off = refl
