-- ===== src/Journal.antt =====
-- The two bounded histories: `CaptureJournal` of reconcile.go and the recent writes of writer.go.
-- Both write the same ring, an array of fixed length with a head and a count.
pub mod History
pub mod Newer
pub mod Overlap
use tssniff.Prelude.{
  ℕ, zero, suc, ◌+◌, ◌-◌, ◌%◌, Bool, true, false, ◌&&◌, ◌||◌, List, [], ◌∷◌, ltb, leb, ◌==◌,
  if◌then◌else◌, length, get_or, set, replicate,
}
use tssniff.Events.{CaptureRange}

-- The array, the index that is written next, and how many entries were written, up to the length.
pub record Ring {ℓ} (A : Type ℓ) : Type ℓ where
  pub items : List A
  pub head : ℕ
  pub count : ℕ

-- The zero value of the struct.
pub new_ring {ℓ} : {A : Type ℓ} → ℕ → A → Ring A
new_ring n a = record { items = replicate n a; head = 0; count = 0 }

-- `CaptureJournal.Add`, and the body of `rememberWrite` behind its literal.
pub add {ℓ} : {A : Type ℓ} → Ring A → A → Ring A
add r a = record {
  items = set r.items r.head a;
  head = (r.head + 1) % length r.items;
  count = if ltb r.count (length r.items) then r.count + 1 else r.count;
}

-- `WriteRecord` of writer.go.
pub record WriteRecord : Type 0 where
  pub seq : ℕ
  pub start : ℕ
  pub end : ℕ

abbrev pub capture_history_capacity : ℕ
capture_history_capacity = 65536

abbrev pub writer_history_capacity : ℕ
writer_history_capacity = 131072

abbrev pub no_capture : CaptureRange
no_capture = record { seq = 0; start = 0; end = 0 }

abbrev pub no_record : WriteRecord
no_record = record { seq = 0; start = 0; end = 0 }

-- Whether the loop of `ForOverlap` hands the capture on.
unfoldable pub overlaps : ℕ → ℕ → CaptureRange → Bool
overlaps start end c = if leb c.end start || leb end c.start then false else true

-- The loop of `ForOverlap`, with `n` rounds left: the captures that `fn` is called with, in order.
overlap_from : Ring CaptureRange → ℕ → ℕ → ℕ → ℕ → ℕ → List CaptureRange
overlap_from j start end first zero i = []
overlap_from j start end first (suc n) i =
    let c = get_or j.items ((first + i) % length j.items) no_capture in
    let rest = overlap_from j start end first n (i + 1) in
    if overlaps start end c then c ∷ rest else rest

-- `ForOverlap`
pub for_overlap : Ring CaptureRange → ℕ → ℕ → List CaptureRange
for_overlap j start end =
    if leb end start || j.count == 0
    then []
    else overlap_from j start end ((j.head + length j.items - j.count) % length j.items) j.count 0

-- `rememberWrite`
unfoldable pub remember_write : Ring WriteRecord → ℕ → ℕ → ℕ → Ring WriteRecord
remember_write r seq start end = add r (record { seq = seq; start = start; end = end })

-- The test of a round of `hasNewerOverlap`.
pub is_newer_overlap : ℕ → ℕ → ℕ → WriteRecord → Bool
is_newer_overlap seq start end r =
    if leb r.seq seq then false else ltb start r.end && ltb r.start end

-- The loop of `hasNewerOverlap`, with `n` rounds left.
newer_from : Ring WriteRecord → ℕ → ℕ → ℕ → ℕ → ℕ → Bool
newer_from w seq start end zero i = false
newer_from w seq start end (suc n) i =
    let r = get_or w.items ((w.head + length w.items - 1 - i) % length w.items) no_record in
    elim (is_newer_overlap seq start end r) [
      | true ↦ true
      | false ↦ newer_from w seq start end n (i + 1)
    ]

-- `hasNewerOverlap`
pub has_newer_overlap : Ring WriteRecord → ℕ → ℕ → ℕ → Bool
has_newer_overlap w seq start end = newer_from w seq start end w.count 0
