-- ===== src/Ntfs/Files/Rebuilt.antt =====
-- What `rebuildRanges` makes of the records.
use tssniff.Prelude.{
  ℕ, ◌≤◌, ◌≡◌, ◌⊎◌, ◌↔◌, ◌∙◌, true, false, ◌&&◌, List, [], ◌∷◌, arith, ◌==◌, inl, inr, Bool-cases,
}
use tssniff.Ranges.{sort}
use tssniff.Ranges.Points.{covers, covers-append, IsSeparated}
use tssniff.Ranges.Sort.{covers-sort}
use tssniff.Ranges.Coalesce.{covers-coalesce_byte_ranges, coalesce_byte_ranges-IsSeparated}
use tssniff.Ntfs.Record.{NtfsRecord}
use tssniff.Ntfs.Volume.{Ntfs}
use tssniff.Ntfs.Ids.{contains}
use tssniff.Ntfs.Files.{is_active, active_files, active_ranges, rebuild_ranges}
use tssniff.Ntfs.Files.Inside.{AreInside, AreInside-append, AllInside}

-- A record that stands under its own number, is none of the sixteen of NTFS itself, is in use and
-- is no directory.
abbrev pub IsUserFile : ℕ → NtfsRecord → Type 0
IsUserFile id info = (info.base_id ≡ id) × (16 ≤ id) × (info.in_use ≡ true) × (info.is_dir ≡ false)

is_active-IsUserFile :
    (id : ℕ) (info : NtfsRecord) → (is_active id info ≡ true) ↔ IsUserFile id info
unfolding is_active
is_active-IsUserFile id info = (
  λ t. (ground arith, ground arith, ground arith, ground arith),
  λ h. let (a, b, c, d) = h in ground arith,
)

-- A key of the map whose own record is a file in use.
abbrev pub HasFile : List (ℕ × NtfsRecord) → ℕ → Type 0
HasFile [] k = ⊥
HasFile ((id, info) ∷ es) k = ((id ≡ k) × IsUserFile id info) ⊎ HasFile es k

-- A record of `es` has the byte among its data, and belongs to a file in use of `all`.
abbrev pub HasByte : List (ℕ × NtfsRecord) → ℕ → List (ℕ × NtfsRecord) → Type 0
HasByte all x [] = ⊥
HasByte all x ((id, info) ∷ es) =
    (HasFile all info.base_id × (covers x info.data_ranges ≡ true)) ⊎ HasByte all x es

contains-active_files :
    (es : List (ℕ × NtfsRecord)) (k : ℕ) → (contains (active_files es) k ≡ true) ↔ HasFile es k
unfolding active_files contains
contains-active_files [] k = (λ t. cc, λ m. absurd m)
contains-active_files ((id, info) ∷ es) k =
    let (to, from) = contains-active_files es k in
    let (to', from') = is_active-IsUserFile id info in
    (
      λ t. elim (Bool-cases (is_active id info && id == k)) [
        | inl e ↦ inl (ground arith, to' (ground arith))
        | inr e ↦ inr (to (ground arith))
      ],
      λ m. elim m [
        | inl h ↦ let (a, b) = h in let c = from' b in ground arith
        | inr m ↦ let e = from m in ground arith
      ],
    )

covers-active_ranges :
    (all es : List (ℕ × NtfsRecord)) (x : ℕ)
    → (covers x (active_ranges (active_files all) es) ≡ true) ↔ HasByte all x es
unfolding active_ranges
covers-active_ranges all [] x = (λ t. cc, λ m. absurd m)
covers-active_ranges all ((id, info) ∷ es) x =
    let (to, from) = covers-active_ranges all es x in
    let (to', from') = contains-active_files all info.base_id in
    (
      λ t.
          elim (Bool-cases
            (contains (active_files all) info.base_id && covers x info.data_ranges)) [
              | inl e ↦ inl (to' (ground arith), ground arith)
              | inr e ↦ inr (
                  to (
                    ground (
                      arith,
                      covers-append x info.data_ranges (active_ranges (active_files all) es),
                    )))
            ],
      λ m. elim m [
        | inl h ↦
            let (a, b) = h in
            let e = from' a in
            ground (arith, covers-append x info.data_ranges (active_ranges (active_files all) es))
        | inr m ↦
            let e = from m in
            ground (arith, covers-append x info.data_ranges (active_ranges (active_files all) es))
      ],
    )

-- `rebuildRanges` makes data ranges that have a byte exactly if a record has it among its data
-- whose base record stands under its own number, from 16 on, is in use and is no directory, and
-- that are separated.
pub covers-rebuild_ranges :
    (n : Ntfs) (x : ℕ)
    → ((covers x (rebuild_ranges n).data_ranges ≡ true) ↔ HasByte n.records x n.records)
      × IsSeparated 0 (rebuild_ranges n).data_ranges
unfolding rebuild_ranges
covers-rebuild_ranges n x =
    let active = active_ranges (active_files n.records) n.records in
    let (to, from) = covers-active_ranges n.records n.records x in
    let same = covers-coalesce_byte_ranges x (sort active) ∙ covers-sort x active in
    (rw same (λ t. to t, λ m. from m), coalesce_byte_ranges-IsSeparated (sort active))

active_ranges-AreInside :
    (n : Ntfs) (ids : List ℕ) (es : List (ℕ × NtfsRecord))
    → AllInside n.partition es
    → AreInside n.partition (active_ranges ids es)
unfolding active_ranges
active_ranges-AreInside n ids [] v x h = cc
active_ranges-AreInside n ids ((id, info) ∷ es) (v, vs) x h = ground (
  arith,
  active_ranges-AreInside n ids es vs x,
  AreInside-append n.partition info.data_ranges (active_ranges ids es) v
      (active_ranges-AreInside n ids es vs) x,
)

pub rebuild_ranges-AreInside :
    (n : Ntfs)
    → AllInside n.partition n.records
    → AreInside n.partition (rebuild_ranges n).data_ranges
unfolding rebuild_ranges
rebuild_ranges-AreInside n v x h =
    let active = active_ranges (active_files n.records) n.records in
    let same = covers-coalesce_byte_ranges x (sort active) ∙ covers-sort x active in
    active_ranges-AreInside n (active_files n.records) n.records v x (rw same at h)
