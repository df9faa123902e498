-- ===== src/Scanner.antt =====
-- mpegts.go: the detector that finds MPEG-TS packets in the stream of writes. Slices are lists;
-- a `copy` to the front of the buffer with the cut that follows it is a `drop`.
pub mod Find
pub mod Emit
pub mod Chunks
pub mod Complete
pub mod Feed
pub mod Verdict
mod Tests
use tssniff.Prelude.{
  ℕ, zero, suc, ◌+◌, ◌-◌, ◌*◌, ◌/◌, min, bit_and, Bool, true, false, not, ◌||◌, ◌&&◌, List, [], ◌∷◌,
  ◌++◌, Option, none, some, ltb, leb, ◌==◌, if◌then◌else◌, add_u64, length, take, drop, get_or,
}

abbrev pub ts_packet_size : ℕ
ts_packet_size = 188

abbrev pub ts_sync_byte : ℕ
ts_sync_byte = 0x47

abbrev pub ts_probe_packets : ℕ
ts_probe_packets = 10

abbrev pub ts_probe_size : ℕ
ts_probe_size = ts_packet_size * ts_probe_packets

abbrev pub ts_tail_size : ℕ
ts_tail_size = ts_probe_size - 1

abbrev pub max_broadcast_packets : ℕ
max_broadcast_packets = 128

-- `TSChunk`
pub record TsChunk : Type 0 where
  pub start : ℕ
  pub end : ℕ
  pub bytes : List ℕ

-- `TSScanner`
pub record TsScanner : Type 0 where
  pub buffer : List ℕ
  pub buffer_start : ℕ
  pub expected : ℕ
  pub have_expected : Bool
  pub detected : Bool

pub new_ts_scanner : TsScanner
new_ts_scanner = record {
  buffer = [];
  buffer_start = 0;
  expected = 0;
  have_expected = false;
  detected = false;
}

-- `validTSPacket`
pub valid_ts_packet : List ℕ → Bool
valid_ts_packet bytes =
    if ltb (length bytes) ts_packet_size
    then false
    else if not (get_or bytes 0 0 == ts_sync_byte)
    then false
    else if bit_and (get_or bytes 3 0) 0x30 == 0
    then false
    else true

-- The inner loop of `findMPEGTS`: `n` packets from `off` on are valid.
pub probe_packets : ℕ → ℕ → List ℕ → Bool
probe_packets zero off bytes = true
probe_packets (suc n) off bytes = elim (valid_ts_packet (drop off bytes)) [
  | false ↦ false
  | true ↦ probe_packets n (off + ts_packet_size) bytes
]

-- The outer loop of `findMPEGTS`, with `n` rounds left.
find_from : ℕ → ℕ → List ℕ → Option ℕ
find_from zero i bytes = none
find_from (suc n) i bytes =
    elim ((get_or bytes i 0 == ts_sync_byte) && probe_packets ts_probe_packets i bytes) [
      | true ↦ some i
      | false ↦ find_from n (i + 1) bytes
    ]

-- `findMPEGTS`; its `0, false` is `none`.
pub find_mpegts : List ℕ → Option ℕ
find_mpegts bytes =
    if ltb (length bytes) ts_probe_size
    then none
    else find_from (length bytes - ts_probe_size + 1) 0 bytes

-- The buffer loses its first `n` bytes.
pub advance : ℕ → TsScanner → TsScanner
advance n s = record s { buffer = drop n s.buffer; buffer_start = add_u64 s.buffer_start n }

-- `keepTail`
pub keep_tail : TsScanner → TsScanner
keep_tail s =
    if leb (length s.buffer) ts_tail_size then s else advance (length s.buffer - ts_tail_size) s

-- Whether a round of the loop of `emit` goes on behind its first block, or breaks in it.
pub data Sync : Type 0 where
  go stop : TsScanner → Sync

-- The first block of a round of `emit`.
pub resync : TsScanner → Sync
resync s = if valid_ts_packet s.buffer then go s else elim (find_mpegts s.buffer) [
  | none ↦ stop (keep_tail s)
  | some idx ↦
      let s' = if ltb 0 idx then advance idx s else s in
      if ltb (length s'.buffer) ts_packet_size then stop s' else go s'
]

-- The loop over `validPackets`, with `n` packets left to look at.
pub count_valid : ℕ → ℕ → List ℕ → ℕ
count_valid zero off bytes = 0
count_valid (suc n) off bytes = elim (valid_ts_packet (drop off bytes)) [
  | false ↦ 0
  | true ↦ suc (count_valid n (off + ts_packet_size) bytes)
]

-- `packetCount`, cut to the limit, and then `validPackets`.
pub valid_packets : List ℕ → ℕ
valid_packets bytes =
    count_valid
      (let n = length bytes / ts_packet_size in
        if ltb max_broadcast_packets n then max_broadcast_packets else n)
      0 bytes

-- The chunk of the first `n` bytes of the buffer.
pub chunk_of : ℕ → TsScanner → TsChunk
chunk_of n s = record {
  start = s.buffer_start;
  end = add_u64 s.buffer_start n;
  bytes = take n s.buffer;
}

-- The loop of `emit`. Each round takes a byte at least off the buffer, so its length is enough
-- fuel.
pub emit_loop : ℕ → TsScanner → List TsChunk × TsScanner
emit_loop zero s = ([], s)
emit_loop (suc fuel) s = elim (ltb (length s.buffer) ts_packet_size) [
  | true ↦ ([], s)
  | false ↦ elim (resync s) [
    | stop s' ↦ ([], s')
    | go s' ↦ elim (valid_packets s'.buffer) [
      | zero ↦ emit_loop fuel (advance 1 s')
      | suc v ↦
          let n : ℕ = suc v * ts_packet_size in
          let (out, s'') = emit_loop fuel (advance n s') in (chunk_of n s' ∷ out, s'')
    ]
  ]
]

pub emit : TsScanner → List TsChunk × TsScanner
emit s = if ltb (length s.buffer) ts_packet_size then ([], s) else emit_loop (length s.buffer) s

-- `reset`
pub reset : ℕ → TsScanner → TsScanner
reset off s = record {
  buffer = [];
  buffer_start = off;
  expected = off;
  have_expected = true;
  detected = false;
}

-- The chunks and the verdict of `Feed`, and the scanner after it.
abbrev pub Fed : Type 0
Fed = List TsChunk × Bool × TsScanner

pub emitted : TsScanner → Fed
emitted s = let (out, s') = emit s in (out, true, s')

-- `Feed` while a stream is detected.
feed_detected : TsScanner → ℕ → List ℕ → Fed
feed_detected s off bytes =
    if off == s.expected
    then emitted (record s { buffer = s.buffer ++ bytes; expected = add_u64 off (length bytes) })
    else elim (find_mpegts bytes) [
      | none ↦ ([], false, s)
      | some idx ↦ emitted (record s {
        buffer = drop idx bytes;
        buffer_start = add_u64 off idx;
        expected = add_u64 off (length bytes);
      })
    ]

-- `Feed` while none is: `s` is the scanner behind the reset.
feed_probing : TsScanner → ℕ → List ℕ → Fed
feed_probing s off bytes =
    let s' = record s { buffer = s.buffer ++ bytes; expected = add_u64 off (length bytes) } in
    elim (find_mpegts s'.buffer) [
      | none ↦ ([], false, keep_tail s')
      | some idx ↦
          let s'' = if ltb 0 idx then advance idx s' else s' in
          emitted (record s'' { detected = true })
    ]

pub feed : TsScanner → ℕ → List ℕ → Fed
feed s off bytes =
    if length bytes == 0
    then ([], s.detected, s)
    else if s.detected
    then feed_detected s off bytes
    else feed_probing (if not s.have_expected || not (off == s.expected) then reset off s else s)
        off bytes
