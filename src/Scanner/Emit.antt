-- ===== src/Scanner/Emit.antt =====
-- The loop of `emit` against a relation that has no fuel: how a buffer is cut into chunks.
use tssniff.Prelude.{
  ℕ, zero, suc, ◌+◌, ◌*◌, ◌/◌, ◌^◌, ◌≤◌, ◌<◌, ◌≡◌, ◌⊎◌, refl, ◌∙◌, ap, sym, subst, true, false,
  List, [], ◌∷◌, none, some, arith, ltb, if◌then◌else◌, add_u64, length, drop, inl, inr, Bool-cases,
  Option-cases, ℕ-cases, length-drop,
}
use tssniff.Scanner.{
  ts_packet_size, max_broadcast_packets, TsScanner, TsChunk, valid_ts_packet, find_mpegts, advance,
  keep_tail, go, stop, resync, count_valid, valid_packets, chunk_of, emit_loop, emit,
}
use tssniff.Scanner.Find.{
  IsRun, IsRun-cons, IsRun-head, IsFirstSync, find_mpegts-IsFirstSync, valid_ts_packet-head,
}

-- Where the next chunk begins: at a valid packet in front, or else at the first sync.
abbrev pub BeginsAt : ℕ → TsScanner → Type 0
BeginsAt k s =
    ((k ≡ 0) × (valid_ts_packet s.buffer ≡ true))
    ⊎ ((valid_ts_packet s.buffer ≡ false) × (find_mpegts s.buffer ≡ some k))

-- How `emit` takes a scanner to its chunks and the scanner it leaves.
pub data Emits : TsScanner → List TsChunk → TsScanner → Type 0 where
  short : (s : TsScanner) → length s.buffer < ts_packet_size → Emits s [] s
  lost :
      (s : TsScanner)
      → ts_packet_size ≤ length s.buffer
      → valid_ts_packet s.buffer ≡ false
      → find_mpegts s.buffer ≡ none
      → Emits s [] (keep_tail s)
  cut :
      (s : TsScanner) (k v : ℕ) {out : List TsChunk} {t : TsScanner}
      → BeginsAt k s
      → valid_packets (drop k s.buffer) ≡ suc v
      → Emits (advance (suc v * ts_packet_size) (advance k s)) out t
      → Emits s (chunk_of (suc v * ts_packet_size) (advance k s) ∷ out) t

-- The packets that are counted are a run, within the buffer.
count_valid-IsRun : (n off : ℕ) (bytes : List ℕ) → IsRun (count_valid n off bytes) bytes off
unfolding count_valid
count_valid-IsRun zero off bytes = λ k h. absurd (omega arith)
count_valid-IsRun (suc n) off bytes = elim (Bool-cases (valid_ts_packet (drop off bytes))) [
  | inl v ↦
      rw (v, count_valid)
        (IsRun-cons (count_valid n (off + ts_packet_size) bytes) off bytes v
          (count_valid-IsRun n (off + ts_packet_size) bytes))
  | inr v ↦ rw (v, count_valid) (λ k h. absurd (omega arith))
]

count_valid-le : (n off : ℕ) (bytes : List ℕ) → count_valid n off bytes ≤ n
unfolding count_valid
count_valid-le zero off bytes = omega arith
count_valid-le (suc n) off bytes = ground (arith, count_valid-le n (off + ts_packet_size) bytes)

count_valid_pos :
    (n off : ℕ) (bytes : List ℕ)
    → 0 < n
    → valid_ts_packet (drop off bytes) ≡ true
    → 0 < count_valid n off bytes
unfolding count_valid
count_valid_pos zero off bytes h v = absurd (omega arith)
count_valid_pos (suc n) off bytes h v = ground arith

pub valid_packets-IsRun : (bytes : List ℕ) → IsRun (valid_packets bytes) bytes 0
unfolding valid_packets
valid_packets-IsRun bytes = count_valid-IsRun _ 0 bytes

pub valid_packets-le :
    (bytes : List ℕ)
    → (valid_packets bytes ≤ max_broadcast_packets)
      × (valid_packets bytes * ts_packet_size ≤ length bytes)
unfolding valid_packets
valid_packets-le bytes = ground (
  arith,
  count_valid-le max_broadcast_packets 0 bytes,
  count_valid-le (length bytes / 188) 0 bytes,
)

-- A valid packet in front is counted, so the branch that drops one byte is never taken.
valid_packets_pos : (bytes : List ℕ) → valid_ts_packet bytes ≡ true → 0 < valid_packets bytes
unfolding valid_packets
valid_packets_pos bytes v =
    let whole = (valid_ts_packet-head bytes v).1 in count_valid_pos _ 0 bytes (ground arith) v

-- Nothing to skip leaves the scanner as it is.
advance_zero : (s : TsScanner) → s.buffer_start < 2 ^ 64 → advance 0 s ≡ s
unfolding advance
advance_zero s h = ground arith

pub skip_lem :
    (k : ℕ) (s : TsScanner)
    → s.buffer_start < 2 ^ 64
    → (if ltb 0 k then advance k s else s) ≡ advance k s
skip_lem zero s h = sym (advance_zero s h)
skip_lem (suc k) s h = ground arith

-- What the first block of a round does: it goes on at a valid packet, or gives the buffer up. Its
-- own test for a short buffer never holds.
resync-cases :
    (s : TsScanner)
    → s.buffer_start < 2 ^ 64
    → ((k : ℕ) × (resync s ≡ go (advance k s))
        × BeginsAt k s
        × (valid_ts_packet (drop k s.buffer) ≡ true))
      ⊎ ((resync s ≡ stop (keep_tail s))
          × (valid_ts_packet s.buffer ≡ false)
          × (find_mpegts s.buffer ≡ none))
unfolding resync advance
resync-cases s w = elim (Bool-cases (valid_ts_packet s.buffer)) [
  | inl v ↦ inl (0, rw (v, resync) (ap go (sym (advance_zero s w))), inl (refl, v), v)
  | inr v ↦ elim (Option-cases (find_mpegts s.buffer)) [
    | inl f ↦ inr (rw (v, f, resync), v, f)
    | inr (k, f) ↦
        let first = subst (IsFirstSync s.buffer) f (find_mpegts-IsFirstSync s.buffer) in
        let head = IsRun-head 9 k s.buffer first.1 in
        let whole = (valid_ts_packet-head (drop k s.buffer) head).1 in
        inl (k, rw (v, f, skip_lem k s w, resync) (ground arith), inr (v, f), head)
  ]
]

pub buffer-advance : (k : ℕ) (s : TsScanner) → (advance k s).buffer ≡ drop k s.buffer
unfolding advance
buffer-advance k s = refl

pub buffer_start-advance :
    (k : ℕ) (s : TsScanner) → (advance k s).buffer_start ≡ add_u64 s.buffer_start k
unfolding advance
buffer_start-advance k s = refl

-- What is left behind a chunk needs less fuel.
shorter :
    (fuel k v : ℕ) (s : TsScanner)
    → length s.buffer ≤ suc fuel
    → valid_packets (drop k s.buffer) ≡ suc v
    → length (advance (suc v * ts_packet_size) (advance k s)).buffer ≤ fuel
unfolding advance
shorter fuel k v s h e = omega (
  arith,
  valid_packets-le (drop k s.buffer),
  length-drop (suc v * ts_packet_size) (drop k s.buffer),
  length-drop k s.buffer,
)

emit_loop-Emits :
    (fuel : ℕ) (s : TsScanner)
    → length s.buffer ≤ fuel
    → s.buffer_start < 2 ^ 64
    → Emits s (emit_loop fuel s).0 (emit_loop fuel s).1
unfolding emit_loop
emit_loop-Emits zero s h w = short s (omega arith)
emit_loop-Emits (suc fuel) s h w = elim (Bool-cases (ltb (length s.buffer) ts_packet_size)) [
  | inl e ↦ rw (e, emit_loop) (short s (ground arith))
  | inr e ↦ elim (resync-cases s w) [
    | inr (r, v, f) ↦ rw (e, r, emit_loop) (lost s (ground arith) v f)
    | inl (k, r, b, v) ↦ elim (ℕ-cases (valid_packets (drop k s.buffer))) [
      | inl z ↦ absurd (omega (arith, valid_packets_pos (drop k s.buffer) v))
      | inr (n, c) ↦
          let c' : valid_packets (advance k s).buffer ≡ suc n =
            ap valid_packets (buffer-advance k s) ∙ c in
          let t = advance (suc n * ts_packet_size) (advance k s) in
          rw (e, r, c', emit_loop)
            (cut s k n b c (
              emit_loop-Emits fuel t (shorter fuel k n s h c)
                (omega (arith, buffer_start-advance (suc n * ts_packet_size) (advance k s)))))
    ]
  ]
]

-- With the length of the buffer as fuel `emit` runs to its end: it cuts runs of packets at the
-- front or behind the next sync until less than a packet is left or no sync is found. The
-- buffer starts below the address limit.
pub emit-Emits : (s : TsScanner) → s.buffer_start < 2 ^ 64 → Emits s (emit s).0 (emit s).1
unfolding emit
emit-Emits s w = elim (Bool-cases (ltb (length s.buffer) ts_packet_size)) [
  | inl e ↦ rw (e, emit) (short s (ground arith))
  | inr e ↦ rw (e, emit) (emit_loop-Emits (length s.buffer) s (omega arith) w)
]
