-- ===== src/Ntfs/Runlist.antt =====
-- `parseNTFSRunlist`
pub mod Signed
pub mod Encode
pub mod Shape
use tssniff.Prelude.{
  ℕ, zero, suc, ◌+◌, ◌-◌, ◌*◌, ◌/◌, ◌%◌, ◌^◌, Bool, true, false, ◌||◌, List, [], ◌∷◌, ltb, leb,
  ◌==◌, if◌then◌else◌, add_u64, length, drop,
}
use tssniff.Ntfs.{
  NtfsRun, NtfsResult, ok, err, invalid_run_header, unexpected_eof, zero_length_run, negative_lcn,
  is_negative,
}
use tssniff.Ntfs.Bytes.{le}

-- The value of an offset of `size` bytes, its sign carried up to 64 bits.
unfoldable pub sign_extend : ℕ → ℕ → ℕ
sign_extend size raw =
    if size == 8
    then raw
    else if leb (2 ^ (8 * size - 1)) raw
    then raw + 2 ^ 64 - 2 ^ (8 * size)
    else raw

abbrev pub prepend : NtfsRun → NtfsResult (List NtfsRun) → NtfsResult (List NtfsRun)
prepend r (ok rs) = ok (r ∷ rs)
prepend r (err e) = err e

-- Whether the sizes in a header byte are refused.
unfoldable pub bad_header : ℕ → Bool
bad_header header =
    let length_size = header % 16 in
    let offset_size = header / 16 in length_size == 0 || (ltb 8 length_size || ltb 8 offset_size)

-- The loop over what is left of the data. Each round takes a byte at least, so the length of the
-- data is enough fuel, and the end of the fuel is that of the data.
unfoldable pub parse_runs : ℕ → List ℕ → ℕ → ℕ → NtfsResult (List NtfsRun)
parse_runs zero bytes lcn vcn = err unexpected_eof
parse_runs (suc fuel) [] lcn vcn = err unexpected_eof
parse_runs (suc fuel) (header ∷ rest) lcn vcn = elim (header == 0) [
  | true ↦ ok []
  | false ↦ elim (bad_header header) [
    | true ↦ err invalid_run_header
    | false ↦
        let length_size = header % 16 in
        let offset_size = header / 16 in
        let run_length = le length_size rest in
        let vcn' = add_u64 vcn run_length in
        elim (ltb (length rest) (length_size + offset_size)) [
          | true ↦ err unexpected_eof
          | false ↦ elim (run_length == 0) [
            | true ↦ err zero_length_run
            | false ↦ elim (offset_size == 0) [
              | true ↦
                  prepend
                    (record {
                      start_vcn = vcn;
                      length = run_length;
                      lcn = 2 ^ 64 - 1;
                      sparse = true;
                    })
                    (parse_runs fuel (drop length_size rest) lcn vcn')
              | false ↦
                  let raw = le offset_size (drop length_size rest) in
                  let lcn' = add_u64 lcn (sign_extend offset_size raw) in
                  elim (is_negative lcn') [
                    | true ↦ err negative_lcn
                    | false ↦
                        prepend
                          (record {
                            start_vcn = vcn;
                            length = run_length;
                            lcn = lcn';
                            sparse = false;
                          })
                          (parse_runs fuel (drop offset_size (drop length_size rest)) lcn' vcn')
                  ]
            ]
          ]
        ]
  ]
]

unfoldable pub parse_ntfs_runlist : List ℕ → ℕ → NtfsResult (List NtfsRun)
parse_ntfs_runlist bytes start_vcn = parse_runs (length bytes) bytes 0 start_vcn
