-- ===== src/Shm/Io.antt =====
-- What the calls on a file return, as values that the caller is given, and the errors of shm.go.
use tssniff.Prelude.{ℕ, ◌+◌, ◌-◌, ◌&&◌, List, Option, ltb, leb, if◌then◌else◌, length, get_or}

-- `io.EOF`, or the number of another error of a call on a file.
pub data IoError : Type 0 where
  eof : IoError
  errno : ℕ → IoError

-- The byte count and the error that `ReadAt` or `WriteAt` of a file returns.
pub record Io : Type 0 where
  pub count : ℕ
  pub error : Option IoError

-- The content of a file: a byte for each offset, zero in a hole and beyond the end.
abbrev pub Bytes : Type 0
Bytes = ℕ → ℕ

pub data ShmError : Type 0 where
  nil_base zero_size shm_closed invalid_range outside_volume short_write unexpected_eof : ShmError
  os_error : IoError → ShmError

pub data Result {ℓ} (A : Type ℓ) : Type ℓ where
  ok : A → Result A
  err : ShmError → Result A

-- The file after a write of `bytes` at `off`.
unfoldable pub write_bytes : Bytes → ℕ → List ℕ → Bytes
write_bytes content off bytes x =
    if leb off x && ltb x (off + length bytes) then get_or bytes (x - off) 0 else content x

-- The file after `FALLOC_FL_PUNCH_HOLE` on `[start, end)`.
unfoldable pub punch_bytes : Bytes → ℕ → ℕ → Bytes
punch_bytes content start end x = if leb start x && ltb x end then 0 else content x
