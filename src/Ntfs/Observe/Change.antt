-- ===== src/Ntfs/Observe/Change.antt =====
-- `ObserveMFTWrite` and `NewNTFS` as a whole: what they return and the state they leave.
use tssniff.Prelude.{
  ℕ, ◌^◌, ◌≤◌, ◌<◌, ◌≡◌, ◌≢◌, ◌↔◌, ◌∙◌, sym, ap, if◌then◌else◌, false, refl, true, not, ◌&&◌, List,
  [], ◌∷◌, Option, none, some, arith, ltb, leb, ◌==◌, inl, inr, Bool-cases, subst,
}
use tssniff.Ranges.{ByteRange}
use tssniff.Ranges.Points.{covers}
use tssniff.Ranges.Subtract.{covers-subtract_ranges}
use tssniff.Mbr.{Partition}
use tssniff.Ntfs.{NtfsAttribute, NtfsError, ok, ◌>>=◌, >>=-ok, Reader}
use tssniff.Ntfs.Boot.{read_boot_sector}
use tssniff.Ntfs.Boot.Sound.{read_boot_sector-IsSound}
use tssniff.Ntfs.Record.{parse_ntfs_record}
use tssniff.Ntfs.Volume.{Ntfs, mft_record_count, read_raw_record}
use tssniff.Ntfs.Ids.{numbers, contains, mft_record_ids}
use tssniff.Ntfs.Files.{remove, rebuild_ranges, publish_snapshots}
use tssniff.Ntfs.Files.Inside.{remove-AllInside}
use tssniff.Ntfs.Files.Rebuilt.{HasByte, covers-rebuild_ranges}
use tssniff.Ntfs.Observe.{
  first_plain, with_layout, adopted, load_mft_layout, refresh_record, scan_mft, bare_ntfs, scanned,
  new_ntfs, distinct, merged_ids, refreshed_zero, refresh_zero, scan_growth, refresh_id,
  refresh_ids, observe_mft_write,
}
use tssniff.Ntfs.Ids.Sets.{contains-append}
use tssniff.Ntfs.Observe.Refreshed.{
  record_at, fresh, fresh-same, fresh_twice, refresh_ids-SameLayout, refresh_ids-record_at,
}
use tssniff.Ntfs.Observe.Safe.{
  IsSafe, with_layout-IsSafe, refresh_record-IsSafe, scan_mft_logical_range-IsSafe,
  rebuild_ranges-IsSafe, publish_snapshots-IsSafe,
}

refreshed_zero-IsSafe :
    (ids : List ℕ) (start end : ℕ) (r : Option NtfsError × Ntfs)
    → IsSafe r.1
    → IsSafe (refreshed_zero ids start end r).1
unfolding refreshed_zero
refreshed_zero-IsSafe ids start end (some e, n) v = v
refreshed_zero-IsSafe ids start end (none, n) v = v

refresh_zero-IsSafe :
    (reader : Reader) (n : Ntfs) (start end : ℕ)
    → IsSafe n
    → IsSafe (refresh_zero reader n start end).1
unfolding refresh_zero
refresh_zero-IsSafe reader n start end v = elim (Bool-cases (mft_record_ids n start end).1) [
  | inl e ↦ rw e (
      refreshed_zero-IsSafe (mft_record_ids n start end).0 start end (refresh_record reader n 0)
        (refresh_record-IsSafe reader n 0 v))
  | inr e ↦ rw e v
]

scan_growth-IsSafe :
    (reader : Reader) (old_size : ℕ) (n : Ntfs) → IsSafe n → IsSafe (scan_growth reader old_size n)
unfolding scan_growth
scan_growth-IsSafe reader old_size n v = elim (Bool-cases (ltb old_size n.mft_size)) [
  | inl e ↦ rw e (scan_mft_logical_range-IsSafe reader n _ n.mft_size v)
  | inr e ↦ rw e v
]

remove-IsSafe : (n : Ntfs) (id : ℕ) → IsSafe n → IsSafe (record n { records = remove id n.records })
remove-IsSafe n id v = record {
  sound = v.sound;
  small = v.small;
  records_inside = remove-AllInside n.partition id n.records v.records_inside;
  data_inside = v.data_inside;
  separated = v.separated;
}

refresh_id-IsSafe :
    (reader : Reader) (n : Ntfs) (id : ℕ) → IsSafe n → IsSafe (refresh_id reader n id)
unfolding refresh_id
refresh_id-IsSafe reader n id v = elim (Bool-cases (id == 0)) [
  | inl e ↦ rw e v
  | inr e ↦ elim (Bool-cases (leb (mft_record_count n) id)) [
    | inl f ↦ rw (e, f) (remove-IsSafe n id v)
    | inr f ↦ rw (e, f) (refresh_record-IsSafe reader n id v)
  ]
]

refresh_ids-IsSafe :
    (reader : Reader) (n : Ntfs) (ids : List ℕ) → IsSafe n → IsSafe (refresh_ids reader n ids)
unfolding refresh_ids
refresh_ids-IsSafe reader n [] v = v
refresh_ids-IsSafe reader n (id ∷ ids) v =
    refresh_ids-IsSafe reader (refresh_id reader n id) ids (refresh_id-IsSafe reader n id v)

-- What readers of the snapshots see, and what the state has.
pub record IsPublished (n : Ntfs) : Type 0 where
  pub mft_seen : n.mft_snapshot ≡ some n.mft_ranges
  pub data_seen : n.data_snapshot ≡ some n.data_ranges

-- The records whose data are the ranges of the state.
abbrev pub IsCurrent : Ntfs → Type 0
IsCurrent n = (x : ℕ) → (covers x n.data_ranges ≡ true) ↔ HasByte n.records x n.records

-- What holds behind a write `[start, end)` to the MFT that is not empty. `reread` says that a record
-- that the write touches is, for the MFT as it is then, as it would be if it were read again;
-- `exact` that if record 0 is not touched, the touched records were read again and no other one
-- changed.
pub record IsObserved (reader : Reader) (n : Ntfs) (start end : ℕ) (found : List ByteRange)
    (m : Ntfs) : Type 0 where
  pub reread :
      (k : ℕ)
      → k ≢ 0
      → contains (mft_record_ids n start end).0 k ≡ true
      → fresh reader m k (record_at k m.records) ≡ record_at k m.records
  pub exact :
      (k : ℕ)
      → k ≢ 0
      → (mft_record_ids n start end).1 ≡ false
      → record_at k m.records ≡ (
          if contains (mft_record_ids n start end).0 k
          then fresh reader n k (record_at k n.records)
          else record_at k n.records)
  pub safe : IsSafe m
  pub published : IsPublished m
  pub current : IsCurrent m
  pub new : (x : ℕ) → covers x found ≡ (covers x m.data_ranges && not (covers x n.data_ranges))

-- The records that a write touches are all refreshed.
contains-refresh_zero :
    (reader : Reader) (n : Ntfs) (start end k : ℕ)
    → contains (mft_record_ids n start end).0 k ≡ true
    → contains (refresh_zero reader n start end).0 k ≡ true
unfolding refresh_zero refreshed_zero merged_ids
contains-refresh_zero reader n start end k h = elim (Bool-cases (mft_record_ids n start end).1) [
  | inl e ↦ rw e (behind (mft_record_ids n start end).0 (refresh_record reader n 0) h)
  | inr e ↦ rw e h
]
  where
    behind :
        (ids : List ℕ) (r : Option NtfsError × Ntfs)
        → contains ids k ≡ true
        → contains (refreshed_zero ids start end r).0 k ≡ true
    behind ids (some e, m) h = h
    behind ids (none, m) h =
        let both = contains-append ids (numbers (distinct (mft_record_ids m start end).0) 0) k in
        ground (arith, both, h)

-- Nothing happens before the loop if record 0 is not touched.
refresh_zero_untouched :
    (reader : Reader) (n : Ntfs) (start end : ℕ)
    → (mft_record_ids n start end).1 ≡ false
    → (refresh_zero reader n start end ≡ ((mft_record_ids n start end).0, n))
      × (scan_growth reader n.mft_size n ≡ n)
unfolding refresh_zero scan_growth
refresh_zero_untouched reader n start end h =
    let no : ltb n.mft_size n.mft_size ≡ false = ground arith in (rw h refl, rw no refl)

-- On a state whose geometry is sound and whose record ranges and separated data ranges lie in
-- the partition, `ObserveMFTWrite` of a nonempty range leaves such a state with both snapshots
-- published. Each record but 0 that the write touches is as a read of it from the MFT as it is
-- then makes it: absent behind the end of the MFT, and where the read succeeds, what it says
-- while it is in use and absent otherwise. If record 0 is not touched, the touched records were
-- read again so, one that cannot be read stays, and no other record but perhaps 0 changes. The
-- data ranges are the bytes of the records whose base record stands under its own number from
-- 16 on, is in use and is no directory, and the call returns the bytes that are in them and
-- were not before. For an empty range it returns nothing and leaves the state.
pub observe_mft_write-IsObserved :
    (reader : Reader) (n : Ntfs) (start end : ℕ)
    → IsSafe n
    → let (found, m) = observe_mft_write reader n start end in
      (start < end → IsObserved reader n start end found m) × (end ≤ start → (found ≡ []) × (m ≡ n))
unfolding observe_mft_write publish_snapshots rebuild_ranges
observe_mft_write-IsObserved reader n start end v =
    let zero_done = refresh_zero reader n start end in
    let grown = scan_growth reader n.mft_size zero_done.1 in
    let fresh_state = refresh_ids reader grown zero_done.0 in
    let w = refresh_ids-IsSafe reader grown zero_done.0 (
      scan_growth-IsSafe reader n.mft_size zero_done.1
        (refresh_zero-IsSafe reader n start end v)) in
    let r = rebuild_ranges-IsSafe fresh_state w in
    elim (Bool-cases (leb end start)) [
      | inl e ↦ rw e (λ h. absurd (ground arith), λ h. (refl, refl))
      | inr e ↦ rw e (
        λ h. record {
          reread = λ k c t.
              let old = record_at k grown.records in
              let here = refresh_ids-record_at reader grown zero_done.0 k c in
              let all = contains-refresh_zero reader n start end k t in
              let done = rw all at here in
              let layout = refresh_ids-SameLayout reader grown zero_done.0 in
              fresh-same reader grown (publish_snapshots (rebuild_ranges fresh_state)) k
                (record_at k fresh_state.records) layout
              ∙ ap (λ o. fresh reader grown k o) done
              ∙ fresh_twice reader grown k old
              ∙ sym done;
          exact = λ k c t.
              (let (z, g) = refresh_zero_untouched reader n start end t in
                rw (z, g) (refresh_ids-record_at reader n (mft_record_ids n start end).0 k c));
          safe = publish_snapshots-IsSafe (rebuild_ranges fresh_state) r;
          published = record { mft_seen = refl; data_seen = refl };
          current = λ x. (covers-rebuild_ranges fresh_state x).0;
          new = λ x.
              covers-subtract_ranges x (rebuild_ranges fresh_state).data_ranges n.data_ranges
                r.separated v.separated;
        },
        λ h. absurd (ground arith),
      )
    ]

-- The attribute that is taken, if there is one.
adopted-IsSafe :
    (n : Ntfs) (found : Option NtfsAttribute) {m : Ntfs}
    → IsSafe n
    → adopted n found ≡ ok m
    → IsSafe m
unfolding adopted
adopted-IsSafe n none v h = cc
adopted-IsSafe n (some a) v h = elim (Bool-cases ((with_layout n a).mft_size == 0)) [
  | inl e ↦ absurd (ground arith)
  | inr e ↦
      let same : with_layout n a ≡ _ = ground arith in subst IsSafe same (with_layout-IsSafe n a v)
]

load_mft_layout-IsSafe :
    (reader : Reader) (n : Ntfs) {m : Ntfs} → IsSafe n → load_mft_layout reader n ≡ ok m → IsSafe m
unfolding load_mft_layout
load_mft_layout-IsSafe reader n {m} v h =
    let (buf, h', _) = >>=-ok (read_raw_record reader n.geometry _) _ h in
    let (parsed, h'', _) = >>=-ok (parse_ntfs_record buf 0) _ h' in
    adopted-IsSafe n (first_plain parsed.1) v h''

scanned-IsSafe :
    (r : Option NtfsError × Ntfs) {m : Ntfs}
    → IsSafe r.1
    → scanned r ≡ ok m
    → IsSafe m × IsPublished m
unfolding scanned publish_snapshots
scanned-IsSafe (some e, n) v h = cc
scanned-IsSafe (none, n) v h =
    let same : publish_snapshots n ≡ _ = cc in
    subst (λ k. IsSafe k × IsPublished k) same
      (publish_snapshots-IsSafe n v, record { mft_seen = refl; data_seen = refl })

scan_mft-IsSafe : (reader : Reader) (n : Ntfs) → IsSafe n → IsSafe (scan_mft reader n).1
unfolding scan_mft
scan_mft-IsSafe reader n v = elim (Bool-cases (mft_record_count n == 0)) [
  | inl e ↦ rw e v
  | inr e ↦ rw e (scan_mft_logical_range-IsSafe reader n 0 n.mft_size v)
]

-- The state that `NewNTFS` returns, whatever the reader gives, has a sound geometry, all bytes
-- of its records and of its separated data ranges in the partition, and both snapshots
-- published.
pub new_ntfs-IsSafe :
    (part : Partition) (reader : Reader) {n : Ntfs}
    → new_ntfs part reader ≡ ok n
    → IsSafe n × IsPublished n
unfolding new_ntfs
new_ntfs-IsSafe part reader {n} h =
    let offset_fits : part.offset < 2 ^ 63 = ground arith in
    let size_fits : part.size < 2 ^ 63 = ground arith in
    let h' : (read_boot_sector reader part >>= λ g.
    load_mft_layout reader (bare_ntfs part g) >>= λ n. scanned (scan_mft reader n))
        ≡ ok n =
      ground arith in
    let (g, h'', boot) = >>=-ok (read_boot_sector reader part) _ h' in
    let (m, last, layout) = >>=-ok (load_mft_layout reader (bare_ntfs part g)) _ h'' in
    let start : IsSafe (bare_ntfs part g) = record {
      sound = read_boot_sector-IsSound reader part boot;
      small = omega arith;
      records_inside = tt;
      data_inside = λ x h. cc;
      separated = tt;
    } in
    scanned-IsSafe (scan_mft reader m)
      (scan_mft-IsSafe reader m (load_mft_layout-IsSafe reader (bare_ntfs part g) start layout))
      last
