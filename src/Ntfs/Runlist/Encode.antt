-- ===== src/Ntfs/Runlist/Encode.antt =====
-- The other direction of parseNTFSRunlist: how a run list is written.
use tssniff.Prelude.{
  ℕ, zero, suc, ◌+◌, ◌-◌, ◌*◌, ◌/◌, ◌%◌, ◌^◌, ◌≤◌, ◌<◌, ◌≡◌, refl, ◌∙◌, ap, false, List, [], ◌∷◌,
  ◌++◌, arith, ltb, ◌==◌, ==_iff, if◌then◌else◌, add_u64, length, drop, length-append, inl, inr,
  Bool-cases,
}
use tssniff.Ntfs.{NtfsRun, ok, is_negative}
use tssniff.Ntfs.Bytes.{le, to_le, length-to_le, le-to_le, drop-to_le}
use tssniff.Ntfs.Runlist.Signed.{moved, moved_lem}
use tssniff.Ntfs.Runlist.{sign_extend, prepend, bad_header, parse_runs, parse_ntfs_runlist}

-- One run of a list: how many bytes its length and its offset take, and both. A run whose offset
-- takes no byte is sparse.
pub record Piece : Type 0 where
  pub length_size : ℕ
  pub run_length : ℕ
  pub offset_size : ℕ
  pub offset : ℕ

abbrev pub encode : List Piece → List ℕ → List ℕ
encode [] rest = 0 ∷ rest
encode (p ∷ ps) rest =
    (p.length_size + 16 * p.offset_size)
    ∷ (to_le p.length_size p.run_length ++ (to_le p.offset_size p.offset ++ encode ps rest))

abbrev pub next_lcn : Piece → ℕ → ℕ
next_lcn p lcn = if p.offset_size == 0 then lcn else moved p.offset_size p.offset lcn

-- The runs that the pieces stand for.
abbrev pub decoded : List Piece → ℕ → ℕ → List NtfsRun
decoded [] lcn vcn = []
decoded (p ∷ ps) lcn vcn =
    record {
      start_vcn = vcn;
      length = p.run_length;
      lcn = if p.offset_size == 0 then 2 ^ 64 - 1 else next_lcn p lcn;
      sparse = p.offset_size == 0;
    }
    ∷ decoded ps (next_lcn p lcn) (add_u64 vcn p.run_length)

-- The piece fits its sizes, and its run does not begin at a negative cluster.
pub record Fits (p : Piece) (lcn : ℕ) : Type 0 where
  pub some_length : 0 < p.length_size
  pub few_length : p.length_size ≤ 8
  pub few_offset : p.offset_size ≤ 8
  pub not_empty : 0 < p.run_length
  pub length_fits : p.run_length < 256 ^ p.length_size
  pub offset_fits : p.offset < 256 ^ p.offset_size
  pub not_below : 256 ^ p.offset_size ≤ 2 * p.offset → 256 ^ p.offset_size ≤ lcn + p.offset
  pub placed : next_lcn p lcn < 2 ^ 63

abbrev pub AllFit : List Piece → ℕ → Type 0
AllFit [] lcn = Unit {0}
AllFit (p ∷ ps) lcn = Fits p lcn × AllFit ps (next_lcn p lcn)

-- The sum of the code leads to that cluster.
next_lcn_lem :
    (p : Piece) (lcn : ℕ)
    → Fits p lcn
    → (if p.offset_size == 0 then lcn else add_u64 lcn (sign_extend p.offset_size p.offset))
      ≡ next_lcn p lcn
next_lcn_lem p lcn f = elim (Bool-cases (p.offset_size == 0)) [
  | inl e ↦ rw e refl
  | inr e ↦
      let q = f.placed in
      rw e (
        moved_lem p.offset_size p.offset lcn (ground arith) f.few_offset f.offset_fits f.not_below
          (rw (e, if◌then◌else◌) at q))
]

good_header :
    (header : ℕ) → 0 < header % 16 → header % 16 ≤ 8 → header / 16 ≤ 8 → bad_header header ≡ false
unfolding bad_header
good_header header a b c = ground arith

is_negative_lt : (n : ℕ) → n < 2 ^ 63 → is_negative n ≡ false
is_negative_lt n h = ground arith

-- A round of the loop that reads a run.
parse_round :
    (fuel header : ℕ) (bs : List ℕ) (lcn vcn : ℕ)
    → let ls = header % 16 in
      let os = header / 16 in
      let len = le ls bs in
      let lcn' = if os == 0 then lcn else add_u64 lcn (sign_extend os (le os (drop ls bs))) in
      0 < ls
      → ls ≤ 8
      → os ≤ 8
      → 0 < len
      → ls + os ≤ length bs
      → lcn' < 2 ^ 63
      → parse_runs (suc fuel) (header ∷ bs) lcn vcn
        ≡ prepend
            (record {
              start_vcn = vcn;
              length = len;
              lcn = if os == 0 then 2 ^ 64 - 1 else lcn';
              sparse = os == 0;
            })
            (parse_runs fuel (drop os (drop ls bs)) lcn' (add_u64 vcn len))
unfolding parse_runs bad_header
parse_round fuel header bs lcn vcn a b c d e f =
    let t0 : (header == 0) ≡ false = ground (arith, a) in
    let t1 : bad_header header ≡ false = good_header header a b c in
    let t2 : ltb (length bs) (header % 16 + header / 16) ≡ false = ground (arith, e) in
    let t3 : (le (header % 16) bs == 0) ≡ false = ground (arith, d) in
    elim (Bool-cases (header / 16 == 0)) [
      | inl z ↦
          let none_left : header / 16 ≡ 0 = (==_iff _ _).0 z in
          let rest = drop (header % 16) bs in
          let same : drop (header / 16) rest ≡ rest = ap (λ n. drop n rest) none_left in
          rw (t0, t1, t2, t3, z, same, parse_runs) refl
      | inr n ↦ let t5 = is_negative_lt _ (rw n at f) in rw (t0, t1, t2, t3, n, t5, parse_runs) refl
    ]

-- A round of the loop reads one piece.
parse_piece :
    (fuel : ℕ) (p : Piece) (rest : List ℕ) (lcn vcn : ℕ)
    → Fits p lcn
    → parse_runs
        (suc fuel)
        ((p.length_size + 16 * p.offset_size)
          ∷ (to_le p.length_size p.run_length ++ (to_le p.offset_size p.offset ++ rest)))
        lcn
        vcn
      ≡ prepend
          (record {
            start_vcn = vcn;
            length = p.run_length;
            lcn = if p.offset_size == 0 then 2 ^ 64 - 1 else next_lcn p lcn;
            sparse = p.offset_size == 0;
          })
          (parse_runs fuel rest (next_lcn p lcn) (add_u64 vcn p.run_length))
parse_piece fuel p rest lcn vcn f =
    let header = p.length_size + 16 * p.offset_size in
    let tail = to_le p.offset_size p.offset ++ rest in
    let bs = to_le p.length_size p.run_length ++ tail in
    let ls : header % 16 ≡ p.length_size = omega (arith, f.few_length) in
    let os : header / 16 ≡ p.offset_size = omega (arith, f.few_length) in
    let len : le (header % 16) bs ≡ p.run_length =
      rw ls (le-to_le p.length_size p.run_length tail f.length_fits) in
    let behind : drop (header % 16) bs ≡ tail =
      rw ls (drop-to_le p.length_size p.run_length tail) in
    let raw : le (header / 16) (drop (header % 16) bs) ≡ p.offset =
      rw (behind, os) (le-to_le p.offset_size p.offset rest f.offset_fits) in
    let left : drop (header / 16) (drop (header % 16) bs) ≡ rest =
      rw (behind, os) (drop-to_le p.offset_size p.offset rest) in
    let lcn' : (if header / 16 == 0
          then lcn
          else add_u64 lcn (sign_extend (header / 16) (le (header / 16) (drop (header % 16) bs))))
        ≡ next_lcn p lcn =
      rw (raw, os) (next_lcn_lem p lcn f) in
    parse_round fuel header bs lcn vcn (omega (arith, ls, f.some_length))
      (omega (arith, ls, f.few_length)) (omega (arith, os, f.few_offset))
      (omega (arith, len, f.not_empty))
      (omega (
        arith,
        ls,
        os,
        length-append {0} (to_le p.length_size p.run_length) tail,
        length-append {0} (to_le p.offset_size p.offset) rest,
        length-to_le p.length_size p.run_length,
        length-to_le p.offset_size p.offset,
      ))
      (omega (arith, lcn', f.placed))
    ∙ rw (lcn', left, len, os) refl

parse_encoded :
    (fuel : ℕ) (ps : List Piece) (rest : List ℕ) (lcn vcn : ℕ)
    → length ps < fuel
    → AllFit ps lcn
    → parse_runs fuel (encode ps rest) lcn vcn ≡ ok (decoded ps lcn vcn)
unfolding parse_runs
parse_encoded zero ps rest lcn vcn h f = absurd (omega arith)
parse_encoded (suc fuel) [] rest lcn vcn h f = refl
parse_encoded (suc fuel) (p ∷ ps) rest lcn vcn h (f, fs) =
    parse_piece fuel p (encode ps rest) lcn vcn f
    ∙ ap (prepend _)
        (parse_encoded fuel ps rest (next_lcn p lcn) (add_u64 vcn p.run_length) (omega arith) fs)

length-encode : (ps : List Piece) (rest : List ℕ) → length ps < length (encode ps rest)
length-encode [] rest = omega arith
length-encode (p ∷ ps) rest =
    let tail = to_le p.offset_size p.offset ++ encode ps rest in
    omega (
      arith,
      length-append {0} (to_le p.length_size p.run_length) tail,
      length-append {0} (to_le p.offset_size p.offset) (encode ps rest),
      length-encode ps rest,
    )

-- A run list that is written as pieces, each with a length of 1 to 8 bytes that is not zero and
-- an offset of 0 to 8 bytes, which fit their bytes and lead to no negative cluster, with an end
-- mark and any bytes behind it, is parsed into the runs of the pieces: a piece without an
-- offset is sparse, the others begin at the sum of the signed offsets so far, and each begins
-- in the file where the one before it ends.
pub parse_ntfs_runlist-encode :
    (ps : List Piece) (rest : List ℕ) (start_vcn : ℕ)
    → AllFit ps 0
    → parse_ntfs_runlist (encode ps rest) start_vcn ≡ ok (decoded ps 0 start_vcn)
unfolding parse_ntfs_runlist
parse_ntfs_runlist-encode ps rest start_vcn f =
    parse_encoded (length (encode ps rest)) ps rest 0 start_vcn (length-encode ps rest) f
