-- ===== src/Scanner/Complete.antt =====
-- No packet of a clean stream is lost: where the buffer is one valid packet behind the other, the
-- chunks are all of them, in order, and what is left is less than a packet.
use mathlib.Core.List.{append_assoc}
use tssniff.Prelude.{
  ℕ, suc, ◌+◌, ◌*◌, ◌/◌, ◌^◌, ◌≤◌, ◌<◌, ◌≡◌, refl, ◌∙◌, ap, sym, subst, true, List, [], ◌∷◌, ◌++◌,
  arith, length, drop, take, inl, inr, length-drop, drop-drop, take-append-drop,
}
use tssniff.Scanner.{ts_packet_size, TsScanner, TsChunk, valid_ts_packet, advance, chunk_of, emit}
use tssniff.Scanner.Find.{IsRun}
use tssniff.Scanner.Emit.{
  Emits, short, lost, cut, BeginsAt, valid_packets-le, emit-Emits, buffer-advance,
}

-- The bytes of the chunks, one behind the other.
abbrev pub joined : List TsChunk → List ℕ
joined [] = []
joined (c ∷ cs) = c.bytes ++ joined cs

-- Every whole packet of the buffer is valid.
abbrev pub IsClean : List ℕ → Type 0
IsClean bytes = IsRun (length bytes / ts_packet_size) bytes 0

IsClean-drop :
    (n : ℕ) (bytes : List ℕ)
    → n * ts_packet_size ≤ length bytes
    → IsClean bytes
    → IsClean (drop (n * ts_packet_size) bytes)
IsClean-drop n bytes h r k l =
    let w = length-drop (n * ts_packet_size) bytes in
    let p = r (n + k) (omega arith) in
    subst (λ b. valid_ts_packet b ≡ true)
      (ap (λ i. drop i bytes)
          (let e : 0 + (n + k) * ts_packet_size ≡ n * ts_packet_size + (0 + k * ts_packet_size) =
              omega arith in
            e)
        ∙ sym (drop-drop (0 + k * ts_packet_size) (n * ts_packet_size) bytes))
      p

IsClean-head :
    (bytes : List ℕ) → ts_packet_size ≤ length bytes → IsClean bytes → valid_ts_packet bytes ≡ true
IsClean-head bytes h r = r 0 (omega arith)

bytes-chunk_of : (n : ℕ) (s : TsScanner) → (chunk_of n s).bytes ≡ take n s.buffer
unfolding chunk_of
bytes-chunk_of n s = refl

-- A clean buffer is cut at its front.
BeginsAt-clean :
    (k : ℕ) (s : TsScanner)
    → ts_packet_size ≤ length s.buffer
    → IsClean s.buffer
    → BeginsAt k s
    → drop k s.buffer ≡ s.buffer
BeginsAt-clean k s h r (inl (e, v)) = rw e
BeginsAt-clean k s h r (inr (v, f)) = cc (IsClean-head s.buffer h r)

Emits-whole :
    {s t : TsScanner} {out : List TsChunk}
    → Emits s out t
    → IsClean s.buffer
    → (joined out ++ t.buffer ≡ s.buffer) × (length t.buffer < ts_packet_size)
Emits-whole (short s h) r = (refl, h)
Emits-whole (lost s h v f) r = cc (IsClean-head s.buffer h r)
Emits-whole {t = t} (cut s k v {out = out} b c e) r =
    let p = valid_packets-le (drop k s.buffer) in
    let front = BeginsAt-clean k s (omega (arith, length-drop k s.buffer)) r b in
    let n : ℕ = suc v * ts_packet_size in
    let left : (advance n (advance k s)).buffer ≡ drop n s.buffer =
      buffer-advance n (advance k s) ∙ ap (drop n) (buffer-advance k s ∙ front) in
    let fits : n ≤ length s.buffer = omega (arith, length-drop k s.buffer) in
    let (rest, small) =
      Emits-whole e (subst IsClean (sym left) (IsClean-drop (suc v) s.buffer fits r)) in
    (
      append_assoc (chunk_of n (advance k s)).bytes (joined out) t.buffer
          ∙ rw (rest, left, bytes-chunk_of n (advance k s), buffer-advance k s, front)
              (take-append-drop n s.buffer),
      small,
    )

-- When every whole packet of the buffer is valid, `emit` loses no byte: the chunks joined and
-- the rest of the buffer are the buffer, and the rest is shorter than a packet. The buffer
-- starts below the address limit.
pub emit_whole :
    (s : TsScanner)
    → s.buffer_start < 2 ^ 64
    → IsClean s.buffer
    → (joined (emit s).0 ++ (emit s).1.buffer ≡ s.buffer)
      × (length (emit s).1.buffer < ts_packet_size)
emit_whole s w r = Emits-whole (emit-Emits s w) r
