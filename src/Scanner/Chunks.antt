-- ===== src/Scanner/Chunks.antt =====
-- What `emit` hands out: whole valid packets, at the physical place where they were written.
use tssniff.Prelude.{
  ℕ, suc, ◌+◌, ◌-◌, ◌*◌, ◌^◌, ◌≤◌, ◌<◌, ◌≡◌, refl, ◌∙◌, ap, sym, subst, true, List, [], ◌∷◌, arith,
  length, drop, take, length-drop, length-take, get_or-take, drop-drop, drop-take,
}
use tssniff.Scanner.{
  ts_packet_size, ts_tail_size, max_broadcast_packets, TsScanner, TsChunk, valid_ts_packet, advance,
  keep_tail, valid_packets, chunk_of, emit,
}
use tssniff.Scanner.Find.{IsRun}
use tssniff.Scanner.Emit.{
  Emits, short, lost, cut, valid_packets-le, valid_packets-IsRun, emit-Emits, buffer-advance,
}

-- Where the buffer ends in the image.
abbrev pub buffer_end : TsScanner → ℕ
buffer_end s = s.buffer_start + length s.buffer

-- A cut of a whole front leaves the end where it is.
pub advance_within :
    (n : ℕ) (s : TsScanner)
    → n ≤ length s.buffer
    → buffer_end s < 2 ^ 64
    → ((advance n s).buffer_start ≡ s.buffer_start + n)
      × (buffer_end (advance n s) ≡ buffer_end s)
      × ((advance n s).expected ≡ s.expected)
      × ((advance n s).have_expected ≡ s.have_expected)
      × ((advance n s).detected ≡ s.detected)
unfolding advance
advance_within n s h w =
    let l = length-drop n s.buffer in (omega arith, omega arith, refl, refl, refl)

-- The scanner keeps its place, its state and at most a tail of bytes.
pub record Keeps (s t : TsScanner) : Type 0 where
  pub end_same : buffer_end t ≡ buffer_end s
  pub tail : length t.buffer ≤ ts_tail_size
  pub expected_same : t.expected ≡ s.expected
  pub have_same : t.have_expected ≡ s.have_expected
  pub detected_same : t.detected ≡ s.detected

pub keep_tail-Keeps : (s : TsScanner) → buffer_end s < 2 ^ 64 → Keeps s (keep_tail s)
unfolding keep_tail
keep_tail-Keeps s w = ground (
  arith,
  advance_within (length s.buffer - ts_tail_size) s,
  buffer-advance (length s.buffer - ts_tail_size) s,
  length-drop (length s.buffer - ts_tail_size) s.buffer,
)

-- A chunk lies within the buffer.
cut_fits :
    (s : TsScanner) (k v : ℕ)
    → valid_packets (drop k s.buffer) ≡ suc v
    → (k ≤ length s.buffer) × (suc v * ts_packet_size ≤ length (advance k s).buffer)
cut_fits s k v e =
    let p = valid_packets-le (drop k s.buffer) in
    let l = length-drop k s.buffer in let b = ap length (buffer-advance k s) in omega arith

pub Emits-Keeps :
    {s t : TsScanner} {out : List TsChunk} → Emits s out t → buffer_end s < 2 ^ 64 → Keeps s t
Emits-Keeps (short s h) w = record {
  end_same = refl;
  tail = omega arith;
  expected_same = refl;
  have_same = refl;
  detected_same = refl;
}
Emits-Keeps (lost s h v f) w = keep_tail-Keeps s w
Emits-Keeps (cut s k v b c r) w =
    let fits = cut_fits s k v c in
    let first = advance_within k s fits.0 w in
    let second = advance_within (suc v * ts_packet_size) (advance k s) fits.1 (omega arith) in
    let rest = Emits-Keeps r (omega arith) in
    record {
      end_same = omega arith;
      tail = rest.tail;
      expected_same = rest.expected_same ∙ second.2 ∙ first.2;
      have_same = rest.have_same ∙ second.3 ∙ first.3;
      detected_same = rest.detected_same ∙ second.4 ∙ first.4;
    }

-- The chunk is `n` valid packets, and its bytes are those of the buffer at its place.
pub record IsChunkOf (s : TsScanner) (c : TsChunk) : Type 0 where
  pub packets : ℕ
  pub some_packets : 0 < packets
  pub few_packets : packets ≤ max_broadcast_packets
  pub size : length c.bytes ≡ packets * ts_packet_size
  pub valid : IsRun packets c.bytes 0
  pub from : s.buffer_start ≤ c.start
  pub width : c.end ≡ c.start + length c.bytes
  pub inside : c.end ≤ buffer_end s
  pub copied : c.bytes ≡ take (length c.bytes) (drop (c.start - s.buffer_start) s.buffer)

-- The chunks stand one behind the other, none begins before `lo`.
abbrev pub AreChunksOf : TsScanner → ℕ → List TsChunk → Type 0
AreChunksOf s lo [] = Unit {0}
AreChunksOf s lo (c ∷ cs) = (lo ≤ c.start) × IsChunkOf s c × AreChunksOf s c.end cs

valid_ts_packet-take :
    (m : ℕ) (bytes : List ℕ)
    → ts_packet_size ≤ m
    → valid_ts_packet bytes ≡ true
    → valid_ts_packet (take m bytes) ≡ true
unfolding valid_ts_packet
valid_ts_packet-take m bytes h v =
    ground (arith, length-take m bytes, get_or-take m 0 bytes 0, get_or-take m 3 bytes 0)

IsRun-take :
    (n : ℕ) (bytes : List ℕ) → IsRun n bytes 0 → IsRun n (take (n * ts_packet_size) bytes) 0
IsRun-take n bytes r k h = rw (drop-take (0 + k * ts_packet_size) (n * ts_packet_size) bytes) (
    valid_ts_packet-take (n * ts_packet_size - (0 + k * ts_packet_size))
      (drop (0 + k * ts_packet_size) bytes) (omega arith) (r k h))

-- The first packets of a buffer make a chunk of it.
chunk_of-IsChunkOf :
    (v : ℕ) (s : TsScanner)
    → valid_packets s.buffer ≡ suc v
    → buffer_end s < 2 ^ 64
    → IsChunkOf s (chunk_of (suc v * ts_packet_size) s)
unfolding chunk_of
chunk_of-IsChunkOf v s e w =
    let p = valid_packets-le s.buffer in
    let l = length-take (suc v * ts_packet_size) s.buffer in
    let full : length (take (suc v * ts_packet_size) s.buffer) ≡ suc v * ts_packet_size =
      omega arith in
    record {
      packets = suc v;
      some_packets = omega arith;
      few_packets = omega arith;
      size = full;
      valid =
          IsRun-take (suc v) s.buffer
            (subst (λ n. IsRun n s.buffer 0) e (valid_packets-IsRun s.buffer));
      from = omega arith;
      width = omega arith;
      inside = omega arith;
      copied = rw full (
          ap (λ k. take (suc v * ts_packet_size) (drop k s.buffer))
            (let z : 0 ≡ s.buffer_start - s.buffer_start = omega arith in z));
    }

-- A chunk of what a cut leaves is a chunk of the whole.
IsChunkOf-advance :
    (n : ℕ) (s : TsScanner) {c : TsChunk}
    → n ≤ length s.buffer
    → buffer_end s < 2 ^ 64
    → IsChunkOf (advance n s) c
    → IsChunkOf s c
IsChunkOf-advance n s {c} h w v =
    let a = advance_within n s h w in
    record {
      packets = v.packets;
      some_packets = v.some_packets;
      few_packets = v.few_packets;
      size = v.size;
      valid = v.valid;
      from = omega arith;
      width = v.width;
      inside = omega arith;
      copied =
          v.copied
          ∙ ap (take (length c.bytes)) (
              ap (drop (c.start - (advance n s).buffer_start)) (buffer-advance n s)
              ∙ drop-drop (c.start - (advance n s).buffer_start) n s.buffer
              ∙ ap (λ k. drop k s.buffer) (omega arith));
    }

pub AreChunksOf-advance :
    (n : ℕ) (s : TsScanner) (lo : ℕ) (cs : List TsChunk)
    → n ≤ length s.buffer
    → buffer_end s < 2 ^ 64
    → AreChunksOf (advance n s) lo cs
    → AreChunksOf s lo cs
AreChunksOf-advance n s lo [] h w a = tt
AreChunksOf-advance n s lo (c ∷ cs) h w (l, v, r) =
    (l, IsChunkOf-advance n s h w v, AreChunksOf-advance n s c.end cs h w r)

chunk_of_place :
    (n : ℕ) (s : TsScanner)
    → ((chunk_of n s).start ≡ s.buffer_start) × ((chunk_of n s).end ≡ (advance n s).buffer_start)
unfolding chunk_of advance
chunk_of_place n s = (refl, refl)

Emits-AreChunksOf :
    {s t : TsScanner} {out : List TsChunk}
    → Emits s out t
    → buffer_end s < 2 ^ 64
    → AreChunksOf s s.buffer_start out
Emits-AreChunksOf (short s h) w = tt
Emits-AreChunksOf (lost s h v f) w = tt
Emits-AreChunksOf (cut s k v {out = out} b c r) w =
    let fits = cut_fits s k v c in
    let first = advance_within k s fits.0 w in
    let second = advance_within (suc v * ts_packet_size) (advance k s) fits.1 (omega arith) in
    let here =
      chunk_of-IsChunkOf v (advance k s) (ap valid_packets (buffer-advance k s) ∙ c)
        (omega arith) in
    let place = chunk_of_place (suc v * ts_packet_size) (advance k s) in
    let rest = Emits-AreChunksOf r (omega arith) in
    (
      omega (arith, place.0),
      IsChunkOf-advance k s fits.0 w here,
      AreChunksOf-advance k s _ out fits.0 w (
          AreChunksOf-advance (suc v * ts_packet_size) (advance k s) _ out fits.1 (omega arith) (
            subst (λ lo. AreChunksOf (advance (suc v * ts_packet_size) (advance k s)) lo out)
              (sym place.1) rest)),
    )

pub emit-AreChunksOf :
    (s : TsScanner) → buffer_end s < 2 ^ 64 → AreChunksOf s s.buffer_start (emit s).0
emit-AreChunksOf s w = Emits-AreChunksOf (emit-Emits s (omega arith)) w

pub emit-Keeps : (s : TsScanner) → buffer_end s < 2 ^ 64 → Keeps s (emit s).1
emit-Keeps s w = Emits-Keeps (emit-Emits s (omega arith)) w
