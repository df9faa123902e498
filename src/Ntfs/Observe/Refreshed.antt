-- ===== src/Ntfs/Observe/Refreshed.antt =====
-- What the loop over the records in `ObserveMFTWrite` does to each record.
use tssniff.Prelude.{
  ℕ, ◌≡◌, ◌≢◌, refl, ◌∙◌, ap, false, List, [], ◌∷◌, Option, none, some, arith, leb, ◌==◌,
  if◌then◌else◌, inl, inr, Bool-cases,
}
use tssniff.Mbr.{Partition}
use tssniff.Ntfs.{NtfsAttribute, NtfsResult, ok, err, Reader}
use tssniff.Ntfs.Boot.{Geometry}
use tssniff.Ntfs.Record.{NtfsRecord}
use tssniff.Ntfs.Volume.{Ntfs, mft_record_count, read_mft_logical, read_record}
use tssniff.Ntfs.Ids.{contains}
use tssniff.Ntfs.Files.{remove, put, build_data_ranges, store_record}
use tssniff.Ntfs.Observe.{refreshed, refresh_record, refresh_id, refresh_ids}

-- `n.records[k]`
abbrev pub record_at : ℕ → List (ℕ × NtfsRecord) → Option NtfsRecord
record_at k [] = none
record_at k ((i, info) ∷ es) = if i == k then some info else record_at k es

record_at-remove :
    (k j : ℕ) (es : List (ℕ × NtfsRecord))
    → record_at k (remove j es) ≡ (if j == k then none else record_at k es)
unfolding remove
record_at-remove k j [] = ground arith
record_at-remove k j ((i, info) ∷ es) = ground (arith, record_at-remove k j es)

-- What a record is after it was read again: what it says of itself while it is in use, and nothing
-- otherwise. One that cannot be read stays.
abbrev pub read_again :
    Partition
    → Geometry
    → NtfsResult (NtfsRecord × List NtfsAttribute)
    → Option NtfsRecord
    → Option NtfsRecord
read_again part g (err e) old = old
read_again part g (ok (info, attrs)) old =
    if info.in_use then some (build_data_ranges part g info attrs) else none

-- A record behind the end of the MFT is gone.
abbrev pub fresh : Reader → Ntfs → ℕ → Option NtfsRecord → Option NtfsRecord
fresh reader n k old =
    if leb (mft_record_count n) k
    then none
    else read_again n.partition n.geometry (read_record reader n k) old

-- Two states read the MFT in the same places.
abbrev pub SameLayout : Ntfs → Ntfs → Type 0
SameLayout n m =
    (m.partition ≡ n.partition)
    × (m.geometry ≡ n.geometry)
    × (m.mft_runs ≡ n.mft_runs)
    × (m.mft_size ≡ n.mft_size)

pub fresh-same :
    (reader : Reader) (n m : Ntfs) (k : ℕ) (old : Option NtfsRecord)
    → SameLayout n m
    → fresh reader m k old ≡ fresh reader n k old
unfolding mft_record_count read_record read_mft_logical
fresh-same reader n m k old (p, g, r, s) = rw (p, g, r, s) refl

-- To read it twice is to read it once.
pub fresh_twice :
    (reader : Reader) (n : Ntfs) (k : ℕ) (old : Option NtfsRecord)
    → fresh reader n k (fresh reader n k old) ≡ fresh reader n k old
fresh_twice reader n k old = twice (read_record reader n k)
  where
    twice :
        (r : NtfsResult (NtfsRecord × List NtfsAttribute))
        → (if leb (mft_record_count n) k
            then none
            else read_again n.partition n.geometry r (
                if leb (mft_record_count n) k
                then none
                else read_again n.partition n.geometry r old))
          ≡ (if leb (mft_record_count n) k then none else read_again n.partition n.geometry r old)
    twice (err e) = ground arith
    twice (ok (info, attrs)) = ground arith

refreshed-SameLayout :
    (n : Ntfs) (id : ℕ) (r : NtfsResult (NtfsRecord × List NtfsAttribute))
    → id ≢ 0
    → SameLayout n (refreshed n id r).1
unfolding refreshed store_record
refreshed-SameLayout n id (err e) h = (refl, refl, refl, refl)
refreshed-SameLayout n id (ok (info, attrs)) h =
    let no : (id == 0) ≡ false = ground (arith, h) in
    elim (Bool-cases info.in_use) [
      | inl e ↦ rw (no, e) (refl, refl, refl, refl)
      | inr e ↦ rw (no, e) (refl, refl, refl, refl)
    ]

refreshed-record_at :
    (n : Ntfs) (id k : ℕ) (r : NtfsResult (NtfsRecord × List NtfsAttribute))
    → id ≢ 0
    → record_at k (refreshed n id r).1.records ≡ (
        if id == k
        then read_again n.partition n.geometry r (record_at k n.records)
        else record_at k n.records)
unfolding refreshed store_record put
refreshed-record_at n id k (err e) h = ground arith
refreshed-record_at n id k (ok (info, attrs)) h =
    let no : (id == 0) ≡ false = ground (arith, h) in
    let gone = record_at-remove k id n.records in
    elim (Bool-cases info.in_use) [
      | inl e ↦ rw (no, e) (ground (arith, gone))
      | inr e ↦ rw (no, e) (ground (arith, gone))
    ]

refresh_id-SameLayout :
    (reader : Reader) (n : Ntfs) (id : ℕ) → SameLayout n (refresh_id reader n id)
unfolding refresh_id refresh_record
refresh_id-SameLayout reader n id = elim (Bool-cases (id == 0)) [
  | inl e ↦ rw e (refl, refl, refl, refl)
  | inr e ↦ elim (Bool-cases (leb (mft_record_count n) id)) [
    | inl f ↦ rw (e, f) (refl, refl, refl, refl)
    | inr f ↦ rw (e, f) (refreshed-SameLayout n id (read_record reader n id) (ground arith))
  ]
]

refresh_id-record_at :
    (reader : Reader) (n : Ntfs) (id k : ℕ)
    → k ≢ 0
    → record_at k (refresh_id reader n id).records
      ≡ (if id == k then fresh reader n k (record_at k n.records) else record_at k n.records)
unfolding refresh_id refresh_record
refresh_id-record_at reader n id k h = elim (Bool-cases (id == 0)) [
  | inl e ↦ let no : (id == k) ≡ false = ground (arith, h) in rw (e, no) refl
  | inr e ↦ elim (Bool-cases (leb (mft_record_count n) id)) [
    | inl f ↦ rw (e, f) (ground (arith, record_at-remove k id n.records))
    | inr f ↦ elim (Bool-cases (id == k)) [
      | inl t ↦
          let same : id ≡ k = ground arith in
          let g = rw same at f in
          let step = refreshed-record_at n k k (read_record reader n k) h in
          rw (same, g) (ground (arith, step, h))
      | inr t ↦
          let step = refreshed-record_at n id k (read_record reader n id) (ground arith) in
          rw (e, f, t) (rw t at step)
    ]
  ]
]

pub refresh_ids-SameLayout :
    (reader : Reader) (n : Ntfs) (ids : List ℕ) → SameLayout n (refresh_ids reader n ids)
unfolding refresh_ids
refresh_ids-SameLayout reader n [] = (refl, refl, refl, refl)
refresh_ids-SameLayout reader n (id ∷ ids) =
    let (a, b, c, d) = refresh_id-SameLayout reader n id in
    let (p, q, r, s) = refresh_ids-SameLayout reader (refresh_id reader n id) ids in
    (p ∙ a, q ∙ b, r ∙ c, s ∙ d)

-- Each record of the list is read again, and no other one changes.
pub refresh_ids-record_at :
    (reader : Reader) (n : Ntfs) (ids : List ℕ) (k : ℕ)
    → k ≢ 0
    → record_at k (refresh_ids reader n ids).records
      ≡ (if contains ids k then fresh reader n k (record_at k n.records) else record_at k n.records)
unfolding refresh_ids contains
refresh_ids-record_at reader n [] k h = refl
refresh_ids-record_at reader n (id ∷ ids) k h =
    let n' = refresh_id reader n id in
    let old = record_at k n.records in
    let rest = refresh_ids-record_at reader n' ids k h in
    let one = refresh_id-record_at reader n id k h in
    let same =
      fresh-same reader n n' k (record_at k n'.records) (refresh_id-SameLayout reader n id) in
    let again = fresh_twice reader n k old in
    elim (Bool-cases (contains ids k)) [
      | inl e ↦ elim (Bool-cases (id == k)) [
        | inl t ↦
            rw (e, t) ((rw e at rest) ∙ same ∙ ap (λ o. fresh reader n k o) (rw t at one) ∙ again)
        | inr t ↦ rw (e, t) ((rw e at rest) ∙ same ∙ ap (λ o. fresh reader n k o) (rw t at one))
      ]
      | inr e ↦ elim (Bool-cases (id == k)) [
        | inl t ↦ rw (e, t) ((rw e at rest) ∙ (rw t at one))
        | inr t ↦ rw (e, t) ((rw e at rest) ∙ (rw t at one))
      ]
    ]
