-- ===== src/Ntfs/Record.antt =====
-- `parseNTFSAttribute` and `parseNTFSRecord`
pub mod Attributes
use tssniff.Prelude.{
  ℕ, zero, suc, ◌+◌, ◌-◌, ◌*◌, ◌/◌, ◌%◌, ◌^◌, Bool, true, false, not, ◌||◌, ◌&&◌, List, [], ◌∷◌,
  ltb, leb, ◌==◌, if◌then◌else◌, length, get_or, drop, take,
}
use tssniff.Ranges.{ByteRange}
use tssniff.Ntfs.{
  NtfsRun, NtfsAttribute, NtfsResult, ok, err, ◌>>=◌, unexpected_eof, invalid_attribute_length,
  invalid_attribute_name, invalid_mapping_pairs, invalid_file_record, invalid_first_attribute,
  zero_length_attribute, out_of_fuel,
}
use tssniff.Ntfs.Bytes.{le_at, begins_with}
use tssniff.Ntfs.Runlist.{parse_ntfs_runlist}

abbrev pub ntfs_attr_data : ℕ
ntfs_attr_data = 0x80

abbrev pub ntfs_attr_end : ℕ
ntfs_attr_end = 0xFFFFFFFF

-- `ntfsFileMagic`
abbrev pub ntfs_file_magic : List ℕ
ntfs_file_magic = 0x46 ∷ 0x49 ∷ 0x4C ∷ 0x45 ∷ []

-- `NTFSRecord`
pub record NtfsRecord : Type 0 where
  pub id : ℕ
  pub base_id : ℕ
  pub sequence : ℕ
  pub in_use : Bool
  pub is_dir : Bool
  pub data_ranges : List ByteRange

-- An attribute of which only the kind is read.
abbrev pub bare : ℕ → NtfsAttribute
bare kind = record {
  kind = kind;
  length = 0;
  non_resident = false;
  named = false;
  flags = 0;
  starting_vcn = 0;
  last_vcn = 0;
  allocated_size = 0;
  real_size = 0;
  runs = [];
}

-- Whether the name of an attribute is refused.
unfoldable pub bad_name : List ℕ → ℕ → ℕ → Bool
bad_name rec off attr_end =
    let name_len = get_or rec (off + 9) 0 in
    ltb 0 name_len && ltb attr_end (off + le_at 2 rec (off + 10) + name_len * 2)

-- What stands behind the flags of an attribute that is not resident.
unfoldable pub parse_non_resident : List ℕ → ℕ → ℕ → NtfsAttribute → NtfsResult NtfsAttribute
parse_non_resident rec off attr_end a =
    if ltb attr_end (off + 0x40)
    then err unexpected_eof
    else let a' : NtfsAttribute = record a {
      starting_vcn = le_at 8 rec (off + 0x10);
      last_vcn = le_at 8 rec (off + 0x18);
      allocated_size = le_at 8 rec (off + 0x28);
      real_size = le_at 8 rec (off + 0x30);
    } in
      let pairs_start = off + le_at 2 rec (off + 0x20) in
      if ltb attr_end pairs_start
      then err invalid_mapping_pairs
      else if pairs_start == attr_end
      then ok a'
      else parse_ntfs_runlist (take (attr_end - pairs_start) (drop pairs_start rec)) a'.starting_vcn
        >>= λ runs. ok (record a' { runs = runs })

-- `parseNTFSAttribute`; its `limit` is the length of the record, as in its one call, and its offset
-- is never negative.
unfoldable pub parse_ntfs_attribute : List ℕ → ℕ → NtfsResult NtfsAttribute
parse_ntfs_attribute rec off =
    if ltb (length rec) (off + 16)
    then err unexpected_eof
    else let kind = le_at 4 rec off in
      if kind == ntfs_attr_end
      then ok (bare kind)
      else let len = le_at 4 rec (off + 4) in
        let attr_end = off + len in
        if ltb len 0x18 || not (len % 8 == 0)
        then err invalid_attribute_length
        else if ltb (length rec) attr_end
        then err unexpected_eof
        else if bad_name rec off attr_end
        then err invalid_attribute_name
        else let a : NtfsAttribute = record (bare kind) {
          length = len;
          non_resident = not (get_or rec (off + 8) 0 == 0);
          named = ltb 0 (get_or rec (off + 9) 0);
          flags = le_at 2 rec (off + 12);
        } in
          if not a.non_resident then ok a else parse_non_resident rec off attr_end a

-- The attributes of a result, with one more in front.
abbrev pub prepend :
    NtfsAttribute → NtfsResult (List NtfsAttribute) → NtfsResult (List NtfsAttribute)
prepend a (ok as') = ok (a ∷ as')
prepend a (err e) = err e

-- The loop over the attributes from `off` on.
unfoldable pub parse_attributes : ℕ → List ℕ → ℕ → NtfsResult (List NtfsAttribute)
parse_attributes zero rec off = err out_of_fuel
parse_attributes (suc fuel) rec off = elim (ltb (length rec) (off + 4)) [
  | true ↦ ok []
  | false ↦ elim (le_at 4 rec off == ntfs_attr_end) [
    | true ↦ ok []
    | false ↦ elim (parse_ntfs_attribute rec off) [
      | err e ↦ err e
      | ok a ↦ elim (a.length == 0) [
        | true ↦ err zero_length_attribute
        | false ↦ prepend a (parse_attributes fuel rec (off + a.length))
      ]
    ]
  ]
]

-- The header of a record.
unfoldable pub record_header : List ℕ → ℕ → NtfsRecord
record_header buf id =
    let base = le_at 8 buf 32 % 2 ^ 48 in
    let flags = le_at 2 buf 22 in
    record {
      id = id;
      base_id = if base == 0 then id else base;
      sequence = le_at 2 buf 16;
      in_use = not (flags % 2 == 0);
      is_dir = not (flags / 2 % 2 == 0);
      data_ranges = [];
    }

-- `parseNTFSRecord`. An attribute takes 24 bytes at least, so the length of the record is enough
-- fuel.
unfoldable pub parse_ntfs_record : List ℕ → ℕ → NtfsResult (NtfsRecord × List NtfsAttribute)
parse_ntfs_record buf id =
    if ltb (length buf) 48 || not (begins_with ntfs_file_magic buf)
    then err invalid_file_record
    else let info = record_header buf id in
      if not info.in_use
      then ok (info, [])
      else let first = le_at 2 buf 20 in
        if ltb first 0x18 || leb (length buf) first
        then err invalid_first_attribute
        else parse_attributes (length buf) buf first >>= λ attrs. ok (info, attrs)
