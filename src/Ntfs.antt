-- ===== src/Ntfs.antt =====
-- ntfs.go: the reader of the NTFS volume. An `int64` is its bit pattern, so that its additions wrap
-- as those of a `uint64` do, and it is negative from 2 ^ 63 on. A byte slice is a list of numbers
-- below 256, and the result of a failing function is its error.
pub mod Bytes
pub mod Boot
pub mod Runlist
pub mod Fixup
pub mod Record
pub mod Volume
pub mod Ids
pub mod Files
pub mod Observe
mod Tests
use tssniff.Prelude.{ℕ, ◌^◌, ◌≡◌, ◌≢◌, refl, Bool, List, leb}
use tssniff.Shm.Io.{IoError}

-- `NTFSRun`
pub record NtfsRun : Type 0 where
  pub start_vcn : ℕ
  pub length : ℕ
  pub lcn : ℕ
  pub sparse : Bool

-- `NTFSAttribute`; `named` stands for a name that is not empty, `kind` for `Type`.
pub record NtfsAttribute : Type 0 where
  pub kind : ℕ
  pub length : ℕ
  pub non_resident : Bool
  pub named : Bool
  pub flags : ℕ
  pub starting_vcn : ℕ
  pub last_vcn : ℕ
  pub allocated_size : ℕ
  pub real_size : ℕ
  pub runs : List NtfsRun

-- The errors of the file, one for each message, and that of a call of the reader. `out_of_fuel` is
-- none of them: a loop of the model was given too few rounds.
pub data NtfsError : Type 0 where
  invalid_partition_offset invalid_partition_size oem_id_not_found invalid_boot_signature :
      NtfsError
  invalid_geometry unsupported_sector_size cluster_size_overflow invalid_record_exponent : NtfsError
  unsupported_record_size invalid_mft_location invalid_run_header unexpected_eof : NtfsError
  zero_length_run negative_lcn invalid_sector_size invalid_record_geometry : NtfsError
  invalid_update_sequence fixup_mismatch invalid_attribute_length invalid_attribute_name : NtfsError
  invalid_mapping_pairs invalid_file_record invalid_first_attribute : NtfsError
  zero_length_attribute outside_mft unmapped mft_has_zero_size no_mft_data empty_mft : NtfsError
  out_of_fuel : NtfsError
  read_error : IoError → NtfsError

pub data NtfsResult {ℓ} (A : Type ℓ) : Type ℓ where
  ok : A → NtfsResult A
  err : NtfsError → NtfsResult A

-- A chain of calls, each of which may fail.
infixl 5 ◌>>=◌
abbrev pub ◌>>=◌ {ℓ κ} :
    {A : Type ℓ} {B : Type κ} → NtfsResult A → (A → NtfsResult B) → NtfsResult B
ok a >>= f = f a
err e >>= f = err e

-- A chain that gives a value has steps that do: the last one first.
pub >>=-ok {κ ℓ} :
    {Y : Type κ} {y : Y} {X : Type ℓ} (r : NtfsResult X) (next : X → NtfsResult Y)
    → (r >>= next) ≡ ok y
    → (x : X) × (next x ≡ ok y) × (r ≡ ok x)
>>=-ok (err e) next h = cc
>>=-ok (ok x) next h = (x, h, refl)

-- The fuel was enough, and the predicate holds of the value if there is one.
abbrev pub Returns {ℓ} : {A : Type ℓ} → (A → Type 0) → NtfsResult A → Type 0
Returns P (ok a) = P a
Returns P (err e) = e ≢ out_of_fuel

pub Returns-mono {ℓ} :
    {A : Type ℓ} (P Q : A → Type 0) (r : NtfsResult A)
    → ((a : A) → P a → Q a)
    → Returns P r
    → Returns Q r
Returns-mono P Q (ok a) f h = f a h
Returns-mono P Q (err e) f h = h

pub Returns-bind {κ ℓ} :
    {B : Type ℓ} {A : Type κ} (P : A → Type 0) (Q : B → Type 0) (m : NtfsResult A)
    (f : A → NtfsResult B)
    → Returns P m
    → ((x : A) → P x → Returns Q (f x))
    → Returns Q (m >>= f)
Returns-bind P Q (ok a) f h k = k a h
Returns-bind P Q (err e) f h k = h

-- Whether an `int64` is negative.
abbrev pub is_negative : ℕ → Bool
is_negative n = leb (2 ^ 63) n

-- What a read of `n` bytes at a physical place returns.
abbrev pub Reader : Type 0
Reader = ℕ → ℕ → NtfsResult (List ℕ)
