-- ===== src/Scanner/Find.antt =====
-- `findMPEGTS` returns the first place where ten packets in a row are valid.
use tssniff.Prelude.{
  ℕ, zero, suc, ◌+◌, ◌-◌, ◌*◌, ◌≤◌, ◌<◌, ◌≡◌, refl, ◌∙◌, ap, subst, subst, Bool, true, ◌&&◌, List,
  Option, none, some, arith, ltb, leb, ◌==◌, length, drop, get_or, inl, inr, Bool-cases,
  length-drop, get_or-drop,
}
use tssniff.Scanner.{
  ts_packet_size, ts_probe_packets, ts_probe_size, ts_sync_byte, valid_ts_packet, probe_packets,
  find_from, find_mpegts,
}

-- `n` valid packets stand one behind the other from `i` on.
abbrev pub IsRun : ℕ → List ℕ → ℕ → Type 0
IsRun n bytes i = (k : ℕ) → k < n → valid_ts_packet (drop (i + k * ts_packet_size) bytes) ≡ true

-- Ten of them are taken for MPEG-TS.
abbrev pub IsSync : List ℕ → ℕ → Type 0
IsSync = IsRun ts_probe_packets

-- The first packet of a run, and the run behind it.
pub IsRun-cons :
    (n off : ℕ) (bytes : List ℕ)
    → valid_ts_packet (drop off bytes) ≡ true
    → IsRun n bytes (off + ts_packet_size)
    → IsRun (suc n) bytes off
IsRun-cons n off bytes v r zero l =
    subst (λ t. valid_ts_packet (drop t bytes) ≡ true) (omega arith) v
IsRun-cons n off bytes v r (suc k) l =
    subst (λ t. valid_ts_packet (drop t bytes) ≡ true) (omega arith) (r k (omega arith))

pub IsRun-head :
    (n off : ℕ) (bytes : List ℕ) → IsRun (suc n) bytes off → valid_ts_packet (drop off bytes) ≡ true
IsRun-head n off bytes r =
    subst (λ t. valid_ts_packet (drop t bytes) ≡ true) (omega arith) (r 0 (omega arith))

pub IsRun-tail :
    (n off : ℕ) (bytes : List ℕ) → IsRun (suc n) bytes off → IsRun n bytes (off + ts_packet_size)
IsRun-tail n off bytes r k l =
    subst (λ t. valid_ts_packet (drop t bytes) ≡ true) (omega arith) (r (suc k) (omega arith))

pub probe_packets-IsRun :
    (n off : ℕ) (bytes : List ℕ) → probe_packets n off bytes ≡ true → IsRun n bytes off
unfolding probe_packets
probe_packets-IsRun zero off bytes h = λ k l. absurd (omega arith)
probe_packets-IsRun (suc n) off bytes h = elim (Bool-cases (valid_ts_packet (drop off bytes))) [
  | inl v ↦
      IsRun-cons n off bytes v (probe_packets-IsRun n (off + ts_packet_size) bytes (ground arith))
  | inr v ↦ absurd (ground arith)
]

IsRun-probe_packets :
    (n off : ℕ) (bytes : List ℕ) → IsRun n bytes off → probe_packets n off bytes ≡ true
unfolding probe_packets
IsRun-probe_packets zero off bytes r = refl
IsRun-probe_packets (suc n) off bytes r = ground (
  arith,
  IsRun-head n off bytes r,
  IsRun-probe_packets n (off + ts_packet_size) bytes (IsRun-tail n off bytes r),
)

-- A valid packet begins with the sync byte, and is whole.
pub valid_ts_packet-head :
    (bytes : List ℕ)
    → valid_ts_packet bytes ≡ true
    → (get_or bytes 0 0 ≡ ts_sync_byte) × (ts_packet_size ≤ length bytes)
unfolding valid_ts_packet
valid_ts_packet-head bytes h = ground arith

-- What the test of a round of the outer loop decides.
find_test : List ℕ → ℕ → Bool
find_test bytes i = (get_or bytes i 0 == ts_sync_byte) && probe_packets ts_probe_packets i bytes

find_test-IsSync : (bytes : List ℕ) (i : ℕ) → find_test bytes i ≡ true → IsSync bytes i
unfolding find_test
find_test-IsSync bytes i h = probe_packets-IsRun 10 i bytes (ground arith)

IsSync-find_test : (bytes : List ℕ) (i : ℕ) → IsSync bytes i → find_test bytes i ≡ true
unfolding find_test
IsSync-find_test bytes i r =
    let head = valid_ts_packet-head (drop i bytes) (IsRun-head 9 i bytes r) in
    let byte : get_or (drop i bytes) 0 0 ≡ get_or bytes i 0 =
      get_or-drop i 0 bytes 0 ∙ ap (λ t. get_or bytes t 0) (omega arith) in
    ground (arith, IsRun-probe_packets 10 i bytes r)

-- Ten packets fill the probe window.
pub IsSync-fits : (bytes : List ℕ) (i : ℕ) → IsSync bytes i → i + ts_probe_size ≤ length bytes
IsSync-fits bytes i r =
    let last = valid_ts_packet-head (drop (i + 9 * ts_packet_size) bytes) (r 9 (omega arith)) in
    omega (arith, length-drop (i + 9 * ts_packet_size) bytes)

-- The outcome of a search that looked at the places from `i` up to `stop`.
abbrev Found : ℕ → ℕ → List ℕ → Option ℕ → Type 0
Found i stop bytes none = (j : ℕ) → i ≤ j → j < stop → ¬ IsSync bytes j
Found i stop bytes (some k) =
    (i ≤ k) × (k < stop) × IsSync bytes k × ((j : ℕ) → i ≤ j → j < k → ¬ IsSync bytes j)

Found-next :
    (i stop : ℕ) (bytes : List ℕ) (r : Option ℕ)
    → ¬ IsSync bytes i
    → Found (i + 1) stop bytes r
    → Found i stop bytes r
Found-next i stop bytes none bad f = λ j p q. elim (Bool-cases (leb j i)) [
  | inl e ↦ let e' : j ≡ i = ground arith in rw e' bad
  | inr e ↦ f j (ground arith) q
]
Found-next i stop bytes (some k) bad f = (
  omega arith,
  f.1,
  f.2,
  λ j p q. elim (Bool-cases (leb j i)) [
    | inl e ↦ let e' : j ≡ i = ground arith in rw e' bad
    | inr e ↦ f.3 j (ground arith) q
  ],
)

find_from-Found :
    (n i stop : ℕ) (bytes : List ℕ) → i + n ≡ stop → Found i stop bytes (find_from n i bytes)
unfolding find_from find_test
find_from-Found zero i stop bytes e = λ j p q. absurd (omega arith)
find_from-Found (suc n) i stop bytes e = elim (Bool-cases (find_test bytes i)) [
  | inl t ↦
      rw (t, find_from)
        (omega arith, omega arith, find_test-IsSync bytes i t, λ j p q. absurd (omega arith))
  | inr t ↦
      rw (t, find_from)
        (Found-next i stop bytes (find_from n (i + 1) bytes) (λ r. cc (IsSync-find_test bytes i r))
          (find_from-Found n (i + 1) stop bytes (omega arith)))
]

-- What `findMPEGTS` promises: the first place of ten packets in a row, or that there is none.
abbrev pub IsFirstSync : List ℕ → Option ℕ → Type 0
IsFirstSync bytes none = (j : ℕ) → ¬ IsSync bytes j
IsFirstSync bytes (some k) =
    (k + ts_probe_size ≤ length bytes) × IsSync bytes k × ((j : ℕ) → j < k → ¬ IsSync bytes j)

Found-IsFirstSync :
    (bytes : List ℕ) (r : Option ℕ)
    → ts_probe_size ≤ length bytes
    → Found 0 (length bytes - ts_probe_size + 1) bytes r
    → IsFirstSync bytes r
Found-IsFirstSync bytes none w f = λ j r. f j (omega arith) (omega (arith, IsSync-fits bytes j r)) r
Found-IsFirstSync bytes (some k) w f = (omega arith, f.2, λ j l. f.3 j (omega arith) l)

-- `findMPEGTS` returns the first index at which ten valid packets stand one behind the other,
-- and nothing only if there is no such index.
pub find_mpegts-IsFirstSync : (bytes : List ℕ) → IsFirstSync bytes (find_mpegts bytes)
unfolding find_mpegts
find_mpegts-IsFirstSync bytes = elim (Bool-cases (ltb (length bytes) ts_probe_size)) [
  | inl short ↦ rw short (λ j r. absurd (ground (arith, IsSync-fits bytes j r)))
  | inr long ↦ rw long (
      Found-IsFirstSync bytes _ (ground arith)
        (find_from-Found (length bytes - ts_probe_size + 1) 0 _ bytes (omega arith)))
]
