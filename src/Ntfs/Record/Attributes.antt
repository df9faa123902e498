-- ===== src/Ntfs/Record/Attributes.antt =====
-- What parseNTFSRecord gives of the attributes of a record.
use tssniff.Prelude.{
  ℕ, zero, suc, ◌+◌, ◌-◌, ◌%◌, ◌≤◌, ◌<◌, ◌≡◌, refl, ◌∙◌, ap, true, false, not, List, [], ◌∷◌, arith,
  ltb, ◌==◌, length, get_or, take, drop, inl, inr, Bool-cases,
}
use tssniff.Ntfs.{NtfsAttribute, NtfsResult, ok, err, Returns, Returns-bind, zero_length_attribute}
use tssniff.Ntfs.Bytes.{le_at}
use tssniff.Ntfs.Runlist.{parse_ntfs_runlist}
use tssniff.Ntfs.Runlist.Shape.{AreRuns, parse_ntfs_runlist-AreRuns}
use tssniff.Ntfs.Record.{
  NtfsRecord, ntfs_attr_end, bare, parse_non_resident, parse_ntfs_attribute, prepend,
  parse_attributes, record_header, parse_ntfs_record,
}

-- The attributes stand one behind the other from `off` on, up to `len` at most; each takes whole
-- words of 8 bytes, 24 bytes at least, and its runs follow one another.
abbrev pub AreAttributes : ℕ → ℕ → List NtfsAttribute → Type 0
AreAttributes off len [] = Unit {0}
AreAttributes off len (a ∷ as') =
    (24 ≤ a.length)
    × (a.length % 8 ≡ 0)
    × (off + a.length ≤ len)
    × AreRuns a.starting_vcn a.runs
    × AreAttributes (off + a.length) len as'

-- An attribute that is read, and is not the end mark.
record IsAttribute (rec : List ℕ) (off : ℕ) (a : NtfsAttribute) : Type 0 where
  least : 24 ≤ a.length
  whole : a.length % 8 ≡ 0
  inside : off + a.length ≤ length rec
  ordered : AreRuns a.starting_vcn a.runs

abbrev Kept : ℕ → NtfsAttribute → Type 0
Kept len a = (a.length ≡ len) × AreRuns a.starting_vcn a.runs

parse_non_resident-Kept :
    (rec : List ℕ) (off attr_end : ℕ) (a : NtfsAttribute)
    → Returns (Kept a.length) (parse_non_resident rec off attr_end (record a { runs = [] }))
unfolding parse_non_resident
parse_non_resident-Kept rec off attr_end a =
    let vcn = le_at 8 rec (off + 0x10) in
    let start = off + le_at 2 rec (off + 0x20) in
    let bytes = take (attr_end - start) (drop start rec) in
    let a' : NtfsAttribute = record a {
      starting_vcn = vcn;
      last_vcn = le_at 8 rec (off + 0x18);
      allocated_size = le_at 8 rec (off + 0x28);
      real_size = le_at 8 rec (off + 0x30);
    } in
    let with_runs =
      Returns-bind (AreRuns vcn) (Kept a.length) (parse_ntfs_runlist bytes vcn)
        (λ runs. ok (record a' { runs = runs })) (parse_ntfs_runlist-AreRuns bytes vcn)
        (λ runs h. (refl, h)) in
    ground (arith, with_runs)

Kept-IsAttribute :
    (rec : List ℕ) (off len : ℕ) (r : NtfsResult NtfsAttribute)
    → 24 ≤ len
    → len % 8 ≡ 0
    → off + len ≤ length rec
    → Returns (Kept len) r
    → Returns (IsAttribute rec off) r
Kept-IsAttribute rec off len (ok a) p q s (e, runs) = record {
  least = omega (arith, e);
  whole = ap (λ (n : ℕ). n % 8) e ∙ q;
  inside = omega (arith, e);
  ordered = runs;
}
Kept-IsAttribute rec off len (err e) p q s k = k

parse_ntfs_attribute-IsAttribute :
    (rec : List ℕ) (off : ℕ)
    → (le_at 4 rec off == ntfs_attr_end) ≡ false
    → Returns (IsAttribute rec off) (parse_ntfs_attribute rec off)
unfolding parse_ntfs_attribute
parse_ntfs_attribute-IsAttribute rec off e =
    let len = le_at 4 rec (off + 4) in
    let a : NtfsAttribute = record (bare (le_at 4 rec off)) {
      length = len;
      non_resident = not (get_or rec (off + 8) 0 == 0);
      named = ltb 0 (get_or rec (off + 9) 0);
      flags = le_at 2 rec (off + 12);
    } in
    ground (
      arith,
      Kept-IsAttribute rec off len (ok a),
      Kept-IsAttribute rec off len (parse_non_resident rec off (off + len) a),
      parse_non_resident-Kept rec off (off + len) a,
    )

prepend-AreAttributes :
    (off len : ℕ) (a : NtfsAttribute) (r : NtfsResult (List NtfsAttribute))
    → 24 ≤ a.length
    → a.length % 8 ≡ 0
    → off + a.length ≤ len
    → AreRuns a.starting_vcn a.runs
    → Returns (AreAttributes (off + a.length) len) r
    → Returns (AreAttributes off len) (prepend a r)
prepend-AreAttributes off len a (ok as') p q i s h = (p, q, i, s, h)
prepend-AreAttributes off len a (err e) p q i s h = h

-- A round, by what the attribute is.
round :
    (fuel : ℕ) (rec : List ℕ) (off : ℕ) (r : NtfsResult NtfsAttribute)
    → Returns (IsAttribute rec off) r
    → ((a : NtfsAttribute)
        → IsAttribute rec off a
        → Returns
            (AreAttributes (off + a.length) (length rec))
            (parse_attributes fuel rec (off + a.length)))
    → Returns (AreAttributes off (length rec)) (elim r [
      | err e ↦ err e
      | ok a ↦ elim (a.length == 0) [
        | true ↦ err zero_length_attribute
        | false ↦ prepend a (parse_attributes fuel rec (off + a.length))
      ]
    ])
round fuel rec off (err e) h k = h
round fuel rec off (ok a) h k =
    let not_empty : (a.length == 0) ≡ false = ground (arith, h.least) in
    rw not_empty (
      prepend-AreAttributes off (length rec) a (parse_attributes fuel rec (off + a.length)) h.least
        h.whole h.inside h.ordered (k a h))

-- With the length that is left as fuel the loop comes to its end.
parse_attributes-AreAttributes :
    (fuel : ℕ) (rec : List ℕ) (off : ℕ)
    → off ≤ length rec
    → length rec < off + fuel
    → Returns (AreAttributes off (length rec)) (parse_attributes fuel rec off)
unfolding parse_attributes
parse_attributes-AreAttributes zero rec off h k = absurd (omega arith)
parse_attributes-AreAttributes (suc fuel) rec off h k =
    elim (Bool-cases (le_at 4 rec off == ntfs_attr_end)) [
      | inl e ↦ ground arith
      | inr e ↦
          let next =
            round fuel rec off (parse_ntfs_attribute rec off)
              (parse_ntfs_attribute-IsAttribute rec off e)
              (λ a v.
                parse_attributes-AreAttributes fuel rec (off + a.length) (omega (arith, v.inside))
                  (omega (arith, v.least))) in
          elim (Bool-cases (ltb (length rec) (off + 4))) [
            | inl l ↦ rw (l, parse_attributes) tt
            | inr l ↦ rw (l, e, parse_attributes) next
          ]
    ]

-- `parseNTFSRecord` comes to its end on any bytes with the fuel that it is given; a record that
-- it returns has the fields of the header, and its attributes stand one behind the other within
-- the record from the offset of the header on, each of a whole number of words of 8 bytes and
-- 24 bytes at least, with runs that begin where the one before ends and are not empty.
pub parse_ntfs_record-AreAttributes :
    (buf : List ℕ) (id : ℕ)
    → Returns
        (λ r. (r.0 ≡ record_header buf id) × AreAttributes (le_at 2 buf 20) (length buf) r.1)
        (parse_ntfs_record buf id)
unfolding parse_ntfs_record
parse_ntfs_record-AreAttributes buf id =
    let first = le_at 2 buf 20 in
    let with_attrs = λ (h : first ≤ length buf) (p : 24 ≤ first).
      Returns-bind (AreAttributes first (length buf))
        (λ (r : NtfsRecord × List NtfsAttribute).
          (r.0 ≡ record_header buf id) × AreAttributes first (length buf) r.1)
        (parse_attributes (length buf) buf first) (λ attrs. ok (record_header buf id, attrs))
        (parse_attributes-AreAttributes (length buf) buf first h (omega arith))
        (λ attrs a. (refl, a)) in
    ground (arith, with_attrs)
