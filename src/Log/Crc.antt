-- ===== src/Log/Crc.antt =====
-- Constants of log_format.h, and what the log uses of util/crc32c.h: checksums are a parameter.
use study_history.Prelude.{ℕ, ◌+◌, ◌≡◌, ◌++◌}
use study_history.Coding.{Bytes, IsU32}

-- `enum RecordType`
pub data RecordType : Type 0 where
  zero_type full_type first_type middle_type last_type : RecordType

abbrev pub record_code : RecordType → ℕ
record_code zero_type = 0
record_code full_type = 1
record_code first_type = 2
record_code middle_type = 3
record_code last_type = 4

abbrev pub block_size : ℕ
block_size = 32768

abbrev pub header_size : ℕ
header_size = 4 + 2 + 1

pub record Crc : Type 0 where
  pub value : Bytes → ℕ
  pub extend : ℕ → Bytes → ℕ
  pub mask : ℕ → ℕ
  pub unmask : ℕ → ℕ

-- What crc32c.h documents of its functions.
pub record IsCrc (crc : Crc) : Type 0 where
  pub extend-value : (a b : Bytes) → crc.extend (crc.value a) b ≡ crc.value (a ++ b)
  pub value_u32 : (a : Bytes) → IsU32 (crc.value a)
  pub mask_u32 : (c : ℕ) → IsU32 c → IsU32 (crc.mask c)
  pub unmask-mask : (c : ℕ) → IsU32 c → crc.unmask (crc.mask c) ≡ c
